-- ===== src/Tests/Reinjecting.antt =====
-- An injection whose last update is refused, and the run after it, at a concrete session.
use kube_debug_sess.Prelude.{◌≡◌, refl, ◌==s◌, if◌then◌else◌, true, ◌+◌, [], false}
use kube_debug_sess.Prelude.Int.{pos}
use kube_debug_sess.Api.{phase_text, DebugSession}
use kube_debug_sess.Api.SessionPhase.{injecting, active, failed}
use kube_debug_sess.Kube.{ApiError, Pod, ok, err}
use kube_debug_sess.Cluster.{Env}
use kube_debug_sess.SessionPhases.Update.{with_namespace}
use kube_debug_sess.Reconcilers.Containers.{is_ephemeral_container_present}
use kube_debug_sess.System.Store.{after}
use kube_debug_sess.System.Reinjection.{Prepares, with_its_debugger, after_reinjection}
use kube_debug_sess.Tests.Samples.{in_phase, pod_with, running_debugger, sample_node, calm}

abbrev conflict : ApiError
conflict = record { is_not_found = false; text = "the object has been modified" }

abbrev duplicate : ApiError
duplicate = record { is_not_found = false; text = "Duplicate value: debugger-7" }

-- A pod with no debugger yet.
abbrev bare : Pod
bare = record (pod_with true running_debugger) { ephemeral_containers = [] }

-- A cluster that refuses the update to Active.
abbrev busy : Env
busy = record (calm bare) {
  status_answer = λ h s. if phase_text s.status.phase ==s "Active" then err conflict else ok s;
}

busy-Prepares : Prepares busy bare
unfolding phase_text
busy-Prepares = record {
  pods = λ h key. refl;
  port = pos 30080;
  ports = [];
  services = λ h ns name. refl;
  node = sample_node;
  nodes = [];
  node_lists = λ h. refl;
  source = λ i. i + 250;
  random = λ h n. refl;
  accepts = λ h t e. rw e refl;
}

-- The pod with the debugger that the first run adds, in a cluster that refuses a second one.
abbrev injected : Pod
injected = with_its_debugger busy-Prepares (with_namespace (in_phase injecting))

abbrev full : Env
full = record (calm injected) { ephemeral_answer = λ h ns name p. err duplicate }

full-Prepares : Prepares full injected
full-Prepares = record {
  pods = λ h key. refl;
  port = pos 30080;
  ports = [];
  services = λ h ns name. refl;
  node = sample_node;
  nodes = [];
  node_lists = λ h. refl;
  source = λ i. i + 250;
  random = λ h n. refl;
  accepts = λ h t e. refl;
}

refuses_active :
    (t : DebugSession)
    → t.status.phase ≡ active
    → (if phase_text t.status.phase ==s "Active" then err conflict else ok t) ≡ err conflict
unfolding phase_text
refuses_active t e = rw e refl

after_reinjection_example :
    ((after busy (in_phase injecting)).status.phase ≡ injecting)
    × (is_ephemeral_container_present injected.ephemeral_containers "debugger-7" ≡ true)
    × ((after full (after busy (in_phase injecting))).status.phase ≡ failed)
after_reinjection_example =
    after_reinjection busy full bare (in_phase injecting) (with_namespace (in_phase injecting))
      conflict duplicate busy-Prepares full-Prepares refl refl refl (λ h ns name p. refl)
      (λ h. refuses_active) (λ h ns name c e. refl) (λ h t e. refl)
