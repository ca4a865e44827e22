-- ===== src/Tests/Lives.antt =====
-- A session's life at concrete inputs: created, injected, watched, reached and ended.
use mathlib.Core.List.{Memᴰ}
use kube_debug_sess.Prelude.{
  ◌⊎◌, ◌≡◌, refl, sym, ap, ◌≢◌, ◌∙◌, inl, true, false, none, some, [], ◌∷◌, ◌<>◌,
}
use kube_debug_sess.Prelude.Int.{pos}
use kube_debug_sess.Api.{phase_text, phase_of, DebugSession}
use kube_debug_sess.Api.SessionPhase.{unset, active, failed, completed}
use kube_debug_sess.Kube.{ContainerStatus, Pod, ok}
use kube_debug_sess.SessionPhases.Reason.{action_succeed, analyze_container_status}
use kube_debug_sess.Reconcilers.Containers.{
  find_container, find_status, is_ephemeral_container_present,
}
use kube_debug_sess.Reconcilers.Pending.{check_pod}
use kube_debug_sess.Reconcilers.Logs.{read_log}
use kube_debug_sess.Reconcilers.Injecting.Token.{fill}
use kube_debug_sess.Reconcilers.Injecting.Hex.{IsDrawn}
use kube_debug_sess.Proxy.Server.Access.{Names, Bears}
use kube_debug_sess.System.Population.Laws.{IsDrawnAmong}
use kube_debug_sess.Controller.Runs.{IsCanonical, Run, start, step}
use kube_debug_sess.Proxy.Server.{
  HttpRequest, ProxyEnv, Response, attached, attach_request, find_session, stream, serve_http,
}
use kube_debug_sess.Proxy.Server.Token.{serve_http_token}
use kube_debug_sess.System.Guarded.{IsGuarded, IsDrawnIn, Run-IsGuarded}
use kube_debug_sess.System.Attach.{IsCreated}
use kube_debug_sess.System.Population.{first, creates, reconciles, Reached, empty, changed}
use kube_debug_sess.System.Population.Laws.{IsOnly, Reached-serve_http}
use kube_debug_sess.System.Store.{after}
use kube_debug_sess.System.Access.{serve_http-set_up}
use kube_debug_sess.System.Lifecycle.{
  IsFit, Debugs, after_three, four_runs, after_four, uid-after_four, lifecycle,
}
use kube_debug_sess.System.Lifecycle.Stages.{Answers}
use kube_debug_sess.Tests.Samples.{
  in_phase, pod_with, running_debugger, waiting_for, calm, proxy, attach_to_web,
}

-- A session as it is created.
abbrev fresh : DebugSession
fresh = record (in_phase unset) {
  status = record ((in_phase unset).status) {
    ready_for_attach = false;
    one_time_token = "";
    debugging_container_name = "";
  };
}

abbrev running_pod : Pod
running_pod = pod_with true running_debugger

abbrev over : ContainerStatus
over = record (waiting_for "") { waiting = none; terminated = some "Completed" }

fresh-IsCreated : IsCreated fresh
fresh-IsCreated = record { phase = refl; quiet = refl }

calm-Answers : (c : ContainerStatus) → Answers (calm (pod_with true c)) (pod_with true c)
unfolding read_log
calm-Answers c = record {
  namespaces = λ h name. refl;
  pods = λ h key. refl;
  statuses = λ h t. refl;
  injections = λ h ns name p. refl;
  port = pos 30080;
  ports = [];
  services = λ h ns name. refl;
  node = _;
  nodes = [];
  node_lists = λ h. refl;
  source = _;
  random = λ h n. refl;
  stream = _;
  logs = λ h ns name container. refl;
  raw = _;
  log_read = refl;
  objects = λ h b k l. refl;
}

fresh-IsFit : IsFit fresh running_pod
unfolding check_pod find_container
fresh-IsFit = record { valid = refl; shared = refl }

running-Debugs : Debugs running_pod "debugger-7" running_debugger
unfolding find_status is_ephemeral_container_present
running-Debugs = record { found = refl; present = refl }

over-Debugs : Debugs (pod_with true over) "debugger-7" over
unfolding find_status is_ephemeral_container_present
over-Debugs = record { found = refl; present = refl }

over-succeeds : (analyze_container_status over).0 ≡ action_succeed
unfolding analyze_container_status
over-succeeds = refl

-- The session with its debugger running.
abbrev watched : DebugSession
watched = after (calm running_pod) (after_three (calm running_pod) fresh)

lifecycle_example :
    ((after_three (calm running_pod) fresh).status.phase ≡ active)
    × (watched.status.phase ≡ active)
    × (watched.status.ready_for_attach ≡ true)
    × IsDrawn (calm running_pod) watched.status.one_time_token
    × ((after (calm (pod_with true over)) (after (calm (pod_with true over)) watched)).status.phase
        ≡ completed)
lifecycle_example =
    lifecycle (calm running_pod) (calm running_pod) (calm (pod_with true over)) running_pod
      running_pod (pod_with true over) fresh running_debugger over (calm-Answers running_debugger)
      (calm-Answers running_debugger) (calm-Answers over) fresh-IsCreated fresh-IsFit running-Debugs
      refl over-Debugs refl over-succeeds

fresh-IsCanonical : IsCanonical fresh.status.phase
unfolding phase_text phase_of
fresh-IsCanonical = refl

watched-Run : Run fresh watched
watched-Run =
    four_runs (calm running_pod) (calm running_pod) running_pod running_pod fresh running_debugger
      (calm-Answers running_debugger) (calm-Answers running_debugger) fresh-IsCreated fresh-IsFit
      running-Debugs refl

-- No token counts but those drawn in the runs.
Run-IsGuarded_example : IsGuarded (λ token. ⊥ ⊎ IsDrawnIn watched-Run token) watched
Run-IsGuarded_example =
    Run-IsGuarded (λ token. ⊥) fresh-IsCanonical (record { tokened = inl refl; ready = inl refl })
      watched-Run

-- A proxy that lists the session, and a request with its token.
abbrev watching : ProxyEnv
watching = record proxy { sessions = ok (watched ∷ []) }

abbrev with_its_token : HttpRequest
with_its_token = record attach_to_web {
  authorization = "Bearer" <> (" " <> watched.status.one_time_token);
}

abbrev web_attached : Response
web_attached =
    attached (attach_request "shop" "web" "debugger-7") (stream watching "shop" "web" "debugger-7")

watched-found : find_session (watched ∷ []) "7" ≡ some watched
unfolding find_session
watched-found = rw (uid-after_four (calm running_pod) (calm running_pod) fresh) refl

-- Any namespace and pod that a request names.
web-ns : with_its_token.query "ns" ≢ ""
web-ns = cc

web-pod : with_its_token.query "pod" ≢ ""
web-pod = cc

serve_http-set_up_example : serve_http watching with_its_token ≡ web_attached
serve_http-set_up_example =
    serve_http-set_up (calm running_pod) (calm running_pod) running_pod running_pod fresh
      running_debugger watching with_its_token (watched ∷ []) (calm-Answers running_debugger)
      (calm-Answers running_debugger) fresh-IsCreated fresh-IsFit running-Debugs refl refl
      watched-found refl refl web-ns web-pod refl refl

watched-attached : serve_http watching with_its_token ≡ web_attached
watched-attached =
    let (phase, ready, token) =
      after_four (calm running_pod) (calm running_pod) running_pod running_pod fresh
        running_debugger (calm-Answers running_debugger) (calm-Answers running_debugger)
        fresh-IsCreated fresh-IsFit running-Debugs refl in
    let same = uid-after_four (calm running_pod) (calm running_pod) fresh in
    let name = ap (λ u. "debugger-" <> u) (sym same) in
    serve_http_token watching with_its_token watched (watched ∷ []) (fill 32 token.1.source) refl
      (ap (find_session (watched ∷ [])) same ∙ watched-found) ready token.1.text refl web-ns web-pod
      name refl refl

-- A cluster with this session alone, whatever runs it went through.
Run-Reached : {s t : DebugSession} → Run s t → Reached (s ∷ []) → Reached (t ∷ [])
Run-Reached start p = p
Run-Reached {s} (step env {t} keeps m r) p =
    Run-Reached r (changed p (reconciles env s t keeps m first first))

watched-Reached : Reached (watched ∷ [])
watched-Reached = Run-Reached watched-Run (changed empty (creates fresh fresh-IsCreated tt first))

Reached-serve_http_example :
    (s : DebugSession) × Memᴰ s (watched ∷ [])
    × Names "debugger-7" s.uid
    × IsOnly s (watched ∷ [])
    × Bears with_its_token.authorization s.status.one_time_token
    × ((s.status.phase ≡ active) ⊎ (s.status.phase ≡ failed))
    × IsDrawnAmong watched-Reached s.status.one_time_token
Reached-serve_http_example =
    Reached-serve_http (watched ∷ []) watching with_its_token
      (attach_request "shop" "web" "debugger-7") (stream watching "shop" "web" "debugger-7")
      watched-Reached refl watched-attached
