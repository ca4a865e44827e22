-- ===== src/Tests/Samples.antt =====
-- A cluster that answers every call, and sessions, pods and containers in it.
use kube_debug_sess.Prelude.{
  ◌+◌, ◌==s◌, if◌then◌else◌, ℕ, String, Bool, true, false, none, some, [], ◌∷◌,
}
use kube_debug_sess.Prelude.Int.{pos}
use kube_debug_sess.Api.{SessionPhase, DebugSessionSpec, DebugSession}
use kube_debug_sess.Kube.{
  EphemeralContainer, ContainerStatus, Pod, external_ip, internal_ip, Node, ok, err, ApiError,
  chunk, eof, LogStream,
}
use kube_debug_sess.Cluster.{Env}
use kube_debug_sess.SessionPhases.Update.{with_phase, with_namespace}
use kube_debug_sess.Reconcilers.Terminating.{with_termination_time}
use kube_debug_sess.Updates.{KeepsStatus}
use kube_debug_sess.Proxy.Server.{HttpRequest, ProxyEnv}

abbrev sample_spec : ℕ → DebugSessionSpec
sample_spec max = record {
  target_pod_name = "web";
  target_container_name = "app";
  target_namespace = "";
  debugger_image = "busybox";
  ttl = pos 300;
  max_retry_count = pos max;
  debug_security = none;
}

-- A session in a phase, with a count of retries and their maximum.
abbrev pub session_at : SessionPhase → ℕ → ℕ → DebugSession
session_at phase count max = record {
  name = "debug";
  namespace = "shop";
  uid = "7";
  spec = sample_spec max;
  status = record {
    phase = phase;
    message = "";
    start_time = none;
    termination_time = none;
    debugging_container_name = "debugger-7";
    ready_for_attach = true;
    one_time_token = "0f";
    retry_count = pos count;
  };
}

abbrev pub in_phase : SessionPhase → DebugSession
in_phase phase = session_at phase 0 3

abbrev pub waiting_for : String → ContainerStatus
waiting_for reason = record {
  name = "debugger-7";
  running = false;
  waiting = some reason;
  terminated = none;
}

abbrev pub running_debugger : ContainerStatus
running_debugger = record { name = "debugger-7"; running = true; waiting = none; terminated = none }

abbrev pub sample_debugger : EphemeralContainer
sample_debugger = record {
  name = "debugger-7";
  image = "busybox";
  command = [];
  args = [];
  stdin = true;
  tty = true;
  env = [];
  security_context = none;
  target_container_name = "app";
}

abbrev pub pod_with : Bool → ContainerStatus → Pod
pod_with shares status = record {
  name = "web";
  namespace = "shop";
  containers = "app" ∷ "sidecar" ∷ [];
  share_process_namespace = some shares;
  ephemeral_containers = sample_debugger ∷ [];
  phase = "Running";
  ephemeral_container_statuses = status ∷ [];
}

abbrev pub sample_node : Node
sample_node =
    record { kind = internal_ip; address = "10.0.0.4" }
    ∷ record { kind = external_ip; address = "203.0.113.9" }
    ∷ []

abbrev pub sample_log : LogStream
sample_log = chunk (b'l' ∷ b's' ∷ []) (eof (0x1b ∷ b'[' ∷ b'm' ∷ b'\r' ∷ b'\n' ∷ []))

-- Every call is answered, by this pod where a pod is asked for.
abbrev pub calm : Pod → Env
calm pod = record {
  session = λ h key. ok (in_phase SessionPhase.active);
  sessions = λ h index. ok (in_phase SessionPhase.active ∷ []);
  namespace = λ h name. ok tt;
  pod = λ h key. ok pod;
  status_answer = λ h s. ok s;
  ephemeral_answer = λ h ns name p. ok tt;
  service = λ h ns name. ok (pos 30080 ∷ []);
  nodes = λ h. ok (sample_node ∷ []);
  random = λ h n. ok (λ i. i + 250);
  clock = λ h. 1700000000;
  log = λ h ns name container. ok sample_log;
  object_answer = λ h bucket key bytes. ok tt;
  getenv = λ name. "";
  rfc3339 = λ t. "2023-11-14T22:13:20Z";
}

abbrev pub not_found : ApiError
not_found = record { is_not_found = true; text = "not found" }

-- The same cluster after the pod is gone.
abbrev pub podless : Env
podless = record (calm (pod_with true running_debugger)) { pod = λ h key. err not_found }

pub calm-KeepsStatus : (pod : Pod) → KeepsStatus (calm pod)
calm-KeepsStatus pod = record { kept = λ h s s' e. cc }

-- The proxy in front of the cluster, and a request to it.
abbrev pub proxy : ProxyEnv
proxy = record {
  sessions = ok (in_phase SessionPhase.active ∷ []);
  upgrade = λ upgrader. ok tt;
  executor = λ request. ok tt;
  streaming = λ request. none;
}

abbrev pub attach_to_web : HttpRequest
attach_to_web = record {
  path = "/attach";
  query = λ key. if key ==s "ns" then "shop" else if key ==s "pod" then "web" else "debugger-7";
  authorization = "Bearer 0f";
}

-- What the last status update of a terminating session stores.
abbrev pub ended : DebugSession
ended =
    with_phase
      (with_termination_time (with_namespace (in_phase SessionPhase.terminating)) 1700000000)
      SessionPhase.completed "Termination Completed"
