-- ===== src/Reconcilers/Injecting.antt =====
-- internal/controller/session_phases/reconcilers/injecting_reconciler.go: `Reconcile` and its
-- steps.
pub mod Token
pub mod Laws
pub mod Safety
pub mod Hex
use kube_debug_sess.Prelude.{
  String, Bool, true, false, Option, none, some, List, [], ◌∷◌, ◌++◌, ◌<>◌, ◌==s◌, if◌then◌else◌,
}
use kube_debug_sess.Prelude.Decimal.{show_int}
use kube_debug_sess.Api.{SessionPhase, DebugSession}
use kube_debug_sess.Kube.{EphemeralContainer, Pod, Fallible, ok, err}
use kube_debug_sess.Cluster.{
  Env, M, pure, ◌>>=◌, get_pod, update_status, update_ephemeral_containers,
}
use kube_debug_sess.SessionPhases.Outcome.{GoError, plain, error_text, Outcome}
use kube_debug_sess.SessionPhases.Update.{
  with_namespace, with_container, target_pod, debugger_name, update_session_status,
}
use kube_debug_sess.Reconcilers.SecurityContexts.{build_security_context}
use kube_debug_sess.Reconcilers.NodeInfo.{get_proxy_service_node_info}
use Token.{generate_secure_token}

abbrev debug_script : String
debug_script =
    "\n    trap 'exit 0' EXIT TERM INT\n    ( sleep ${TTL:-300} && exit 0 ) &\n    exec /bin/sh -i\n\t"

-- The container that `injectEphemeralContainer` adds.
unfoldable pub debug_container : DebugSession → EphemeralContainer
unfolding build_security_context show_int
debug_container s = record {
  name = debugger_name s;
  image = s.spec.debugger_image;
  command = "/bin/sh" ∷ [];
  args = "-c" ∷ debug_script ∷ [];
  stdin = true;
  tty = true;
  env = ("TTL", show_int s.spec.ttl) ∷ [];
  security_context = some (build_security_context s.spec.debug_security);
  target_container_name = s.spec.target_container_name;
}

abbrev pub with_token : DebugSession → String → DebugSession
with_token s token = record s { status = record (s.status) { one_time_token = token } }

abbrev pub with_debugger : DebugSession → DebugSession
with_debugger s = record s {
  status = record (s.status) { debugging_container_name = debugger_name s };
}

abbrev pub with_ephemeral : Pod → EphemeralContainer → Pod
with_ephemeral pod c = record pod { ephemeral_containers = pod.ephemeral_containers ++ (c ∷ []) }

-- `pod.Spec.ShareProcessNamespace == nil || !*pod.Spec.ShareProcessNamespace`, the other way round.
abbrev pub shares_processes : Pod → Bool
shares_processes pod = elim (pod.share_process_namespace) [ none ↦ false | some b ↦ b ]

-- The instructions for the user.
connection_text : String → DebugSession → String → String → String
connection_text bastion s node_ip node_port =
    "Session is ready. Open TWO terminals and follow the steps:\n\n--- Terminal 1: Create a secure tunnel ---\n1. Run this command and leave it running. It forwards local port "
    <> ("8080"
        <> (" to the debug proxy via the bastion host.\n   ssh -L "
            <> ("8080"
                <> (":"
                    <> (node_ip
                        <> (":"
                            <> (node_port
                                <> (" "
                                    <> (bastion
                                        <> ("\n\n--- Terminal 2: Connect to the debug session ---\n2. Once the tunnel is active, run this command in a new terminal. It uses the one-time token for authorization.\n   websocat --no-line --binary --header=\"Authorization: Bearer "
                                            <> (s.status.one_time_token
                                                <> ("\" \"ws://localhost:"
                                                    <> ("8080"
                                                        <> ("/attach?ns="
                                                            <> (s.spec.target_namespace
                                                            <> ("&pod="
                                                            <> (s.spec.target_pod_name
                                                            <> ("&container="
                                                            <> (s.status.debugging_container_name
                                                            <> "\"")))))))))))))))))))

-- The container name given, or the first container's; `none` is the error.
abbrev pub choose_container : DebugSession → List String → Option DebugSession
choose_container s [] = if s.spec.target_container_name ==s "" then none else some s
choose_container s (c ∷ cs) =
    if s.spec.target_container_name ==s "" then some (with_container s c) else some s

module _ (env : Env) where
  unfoldable pub build_connection_string : DebugSession → String → String → String
  unfolding connection_text
  build_connection_string s node_ip node_port =
      let host = env.getenv "BASTION_HOST" in
      connection_text (if host ==s "" then "your-user@bastion.example.com" else host) s node_ip
        node_port

  unfoldable pub check_injecting_condition : Pod → M (Fallible GoError (String × String))
  check_injecting_condition pod =
      if shares_processes pod
      then get_proxy_service_node_info env
      else pure (err (plain "pod.Spec.ShareProcessNamespace is false"))

  -- The token, stored in the status. The session is given back as the method leaves it.
  unfoldable pub set_up_debug_sess : DebugSession → M (DebugSession × Option GoError)
  set_up_debug_sess s = do
    answer ← generate_secure_token env 32
    elim answer [
      | err e ↦ pure (s, some e)
      | ok token ↦ (do
        stored ← update_status env (with_token s token)
        pure (elim stored [
          | err e ↦ (with_token s token, some (plain e.text))
          | ok s' ↦ (s', none)
        ]))
    ]

  unfoldable pub inject_ephemeral_container : DebugSession → Pod → M (DebugSession × Option GoError)
  unfolding debug_container
  inject_ephemeral_container s pod = do
    answer ←
        update_ephemeral_containers env s.spec.target_namespace pod.name
          (with_ephemeral pod (debug_container s))
    elim answer [
      | err e ↦ pure (s, some (plain ("failed to update ephemeral containers: " <> e.text)))
      | ok _ ↦ (do
        stored ← update_status env (with_debugger s)
        pure (elim stored [
          | err e ↦ (
            with_debugger s,
            some (
                plain
                  ("failed to update session status with debugging container name: " <> e.text)),
          )
          | ok s' ↦ (s', none)
        ]))
    ]

  abbrev pub fail : DebugSession → String → M Outcome
  fail s message = update_session_status env s SessionPhase.failed message

  -- The end of `Reconcile`: the container is injected, or not.
  unfoldable pub conclude : String × String → DebugSession × Option GoError → M Outcome
  conclude node (s, some e) = fail s ("Inject Failed: " <> error_text e)
  conclude node (s, none) =
      update_session_status env s SessionPhase.active (build_connection_string s node.0 node.1)

  -- After `setUpDebugSess`.
  unfoldable pub inject : Pod → String × String → DebugSession × Option GoError → M Outcome
  unfolding conclude
  inject pod node (s, some e) = fail s ("Setup Failed: " <> error_text e)
  inject pod node (s, none) = do result ← inject_ephemeral_container s pod; conclude node result

  -- With the answer of the check.
  unfoldable pub proceed : Pod → DebugSession → Fallible GoError (String × String) → M Outcome
  unfolding inject
  proceed pod s (err e) = fail s ("Inject Failed: " <> error_text e)
  proceed pod s (ok node) = do result ← set_up_debug_sess s; inject pod node result

  -- From the conditions on.
  unfoldable pub prepare : Pod → Option DebugSession → DebugSession → M Outcome
  unfolding proceed
  prepare pod none s = fail s "Failed to find Target Container"
  prepare pod (some s) _ = do answer ← check_injecting_condition pod; proceed pod s answer

  unfoldable pub reconcile : DebugSession → M Outcome
  unfolding prepare
  reconcile s₀ =
      let s : DebugSession = with_namespace s₀ in
      do
        answer ← get_pod env (target_pod s)
        elim answer [
          | err e ↦ fail s "Failed to find Target Pod"
          | ok pod ↦ prepare pod (choose_container s pod.containers) s
        ]
