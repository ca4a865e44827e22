-- ===== src/Startup/Manager/Laws.antt =====
-- The calls by which the manager starts.
use Prim.Native.Char.{Char}
use kube_debug_sess.Prelude.{
  Bool-cases, eq_iff, inl, inr, false, ◌≡◌, refl, sym, String, Option, ◌<>◌, ◌==s◌, if◌then◌else◌,
  none, some, [], ◌∷◌, ◌++◌, drop,
}
use kube_debug_sess.Api.{DebugSession}
use kube_debug_sess.Api.Registration.ApiObject.{debug_session, debug_session_list}
use kube_debug_sess.Cluster.{Env}
use kube_debug_sess.Controller.{index_key, reconcile, find_sessions_for_pod}
use kube_debug_sess.Startup.Flags.{CommandLine, parse_flags}
use kube_debug_sess.Startup.Options.{ManagerOptions, metrics_options, manager_options}
use kube_debug_sess.Startup.Calls.{
  registered_with, clientgo_types, debug_types, built_types, added_to_scheme, got_config,
  made_manager, made_clientset, indexed_field, completed_controller, added_healthz_check,
  added_readyz_check, started_manager, panicked, died, exited, Answers, or_end, ignoring,
  loaded_aws_config, made_s3_client,
}
use kube_debug_sess.Startup.Calls.Order.{
  repository_builder, Plan, Follows, IsPlanned, then-IsPlanned, or_end-IsPlanned,
  or_end_then-IsPlanned, or_panic-IsPlanned, ignoring-IsPlanned, or_end-ignoring-IsPlanned,
}
use kube_debug_sess.Startup.Manager.{
  static_credentials_of, set_up_with_manager, s3_config, new_terminating_reconciler, init, main,
  manager_program,
}

-- An access key with its secret, where neither is the empty text.
abbrev given_credentials : String → String → Option (String × String)
given_credentials String.[] secret = none
given_credentials (String.◌∷◌ c key) String.[] = none
given_credentials (String.◌∷◌ c key) (String.◌∷◌ d secret) =
    some (String.◌∷◌ c key, String.◌∷◌ d secret)

is_given : (c : Char) (s : String) → (String.◌∷◌ c s ==s "") ≡ false
is_given c s = elim (Bool-cases (String.◌∷◌ c s ==s "")) [
  | inl e ↦ absurd (cc ((eq_iff (String.◌∷◌ c s) "").0 e))
  | inr e ↦ e
]

given_credentials_lem :
    (key secret : String) → static_credentials_of key secret ≡ given_credentials key secret
given_credentials_lem String.[] secret = refl
given_credentials_lem (String.◌∷◌ c key) String.[] = rw (is_given c key) refl
given_credentials_lem (String.◌∷◌ c key) (String.◌∷◌ d secret) =
    rw (is_given c key) (rw (is_given d secret) refl)

-- The key of a session's target pod: the pod's namespace and name, with the session's namespace
-- where it names none.
abbrev target_key : DebugSession → String
target_key s =
    (if s.spec.target_namespace ==s "" then s.namespace else s.spec.target_namespace)
    <> ("/" <> s.spec.target_pod_name)

-- The manager's options: their addresses and the election of a leader are written out here.
abbrev planned_options : CommandLine → ManagerOptions
planned_options line =
    let options = manager_options (parse_flags line) in
    record options {
      metrics = record (options.metrics) {
        bind_address = line.string_var "metrics-bind-address" "0";
      };
      health_probe_bind_address = line.string_var "health-probe-bind-address" ":8081";
      leader_election = line.bool_var "leader-elect" false;
      leader_election_id = "17af02ed.oxan0n.me";
    }

-- The client of S3, the index and the controller.
abbrev set_up_plan : Env → Plan
set_up_plan env =
    (loaded_aws_config (env.getenv "AWS_REGION"), some panicked)
    ∷ (
      made_s3_client (record {
        region = env.getenv "AWS_REGION";
        static_credentials =
            given_credentials (env.getenv "AWS_ACCESS_KEY_ID") (env.getenv "AWS_SECRET_ACCESS_KEY");
      }),
      none,
    )
    ∷ (
      indexed_field "targetPodIndexKey" (λ s. target_key s ∷ []),
      some (exited "unable to create controller"),
    )
    ∷ (
      completed_controller (reconcile env) (find_sessions_for_pod env),
      some (exited "unable to create controller"),
    )
    ∷ []

-- The scheme, the clients, the index, the controller and the checks, and only then the start.
abbrev pub manager_plan : Env → CommandLine → Plan
manager_plan env line =
    (registered_with repository_builder (debug_session ∷ debug_session_list ∷ []), none)
    ∷ (added_to_scheme clientgo_types, some panicked)
    ∷ (added_to_scheme (built_types repository_builder), some panicked)
    ∷ (got_config, some died)
    ∷ (made_manager (planned_options line), some (exited "unable to start manager"))
    ∷ (made_clientset, some (exited "unable to create clientset"))
    ∷ (set_up_plan env
        ++ ((added_healthz_check "healthz", some (exited "unable to set up health check"))
            ∷ (added_readyz_check "readyz", some (exited "unable to set up ready check"))
            ∷ (started_manager, some (exited "problem running manager"))
            ∷ []))

init-IsPlanned :
    (answers : Answers)
    → IsPlanned answers (init answers) (
        (added_to_scheme clientgo_types, some panicked)
        ∷ (added_to_scheme debug_types, some panicked)
        ∷ [])
unfolding init
init-IsPlanned answers =
    then-IsPlanned answers _ _ _ _ (or_end-IsPlanned answers _ _) (or_end-IsPlanned answers _ _)

set_up-IsPlanned :
    (answers : Answers) (env : Env)
    → IsPlanned answers
        (or_end (exited "unable to create controller") (set_up_with_manager answers env))
        (set_up_plan env)
unfolding set_up_with_manager new_terminating_reconciler index_key
set_up-IsPlanned answers env =
    let and = or_end_then-IsPlanned answers in
    let end = exited "unable to create controller" in
    rw
      (sym (
        given_credentials_lem (env.getenv "AWS_ACCESS_KEY_ID")
          (env.getenv "AWS_SECRET_ACCESS_KEY")))
      (and _ _ end _ _
        (and _ _ _ _ _
          (and _ (ignoring answers (made_s3_client (s3_config env))) end _ _
            (or_panic-IsPlanned answers _ end) (or_end-ignoring-IsPlanned answers _ end))
          (or_end-IsPlanned answers _ _))
        (or_end-IsPlanned answers _ _))

main-IsPlanned :
    (answers : Answers) (env : Env) (line : CommandLine)
    → IsPlanned answers (main answers env line) (drop 3 (manager_plan env line))
unfolding main manager_options metrics_options
main-IsPlanned answers env line =
    let one = or_end-IsPlanned answers in
    let and = then-IsPlanned answers in
    and _ _ _ _
      (and _ _ _ _
        (and _ _ _ _
          (and _ _ _ _ (and _ _ _ _ (and _ _ _ _ (one _ _) (one _ _)) (one _ _))
            (set_up-IsPlanned answers env))
          (one _ _))
        (one _ _))
      (one _ _)

-- The manager's program makes its calls in one order: its types are registered, it adds the
-- Kubernetes types and its own to the scheme, reads the configuration, makes the manager with the
-- options of its flags (the addresses for metrics and probes, and the election of a leader, are
-- those of the flags metrics-bind-address, health-probe-bind-address and leader-elect) and the
-- clientset, loads the configuration of AWS for its region and makes
-- the S3 client, with static credentials if neither of their two variables is empty, sets up the
-- index of target pods, by the namespace, a slash and the name of a session's target, and
-- the controller with `Reconcile` and the map from pods to requests, adds the two checks, and only
-- then starts the manager. Each call is made where all before it have succeeded; the first that
-- fails, of those that can, is the last made, and ends the program with the panic, the library's
-- exit or the message of that call; if none fails, the program returns.
pub manager_program-Follows :
    (answers : Answers) (env : Env) (line : CommandLine)
    → let (result, calls) = manager_program answers env line [] in
      Follows answers [] (manager_plan env line) result calls
unfolding manager_program
manager_program-Follows answers env line =
    then-IsPlanned answers _ (main answers env line) _ _
      (then-IsPlanned answers _ (init answers) _ _ (ignoring-IsPlanned answers _)
        (init-IsPlanned answers))
      (main-IsPlanned answers env line) []
