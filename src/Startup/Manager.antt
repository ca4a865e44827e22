-- ===== src/Startup/Manager.antt =====
-- `main` and `init` of cmd/main.go, and `SetupWithManager` of
-- internal/controller/debugsession_controller.go.
pub mod Laws
use kube_debug_sess.Prelude.{
  String, not, ◌&&◌, ◌==s◌, if◌then◌else◌, Option, none, some, List, [], ◌∷◌,
}
use kube_debug_sess.Api.{DebugSession}
use kube_debug_sess.Cluster.{Env}
use kube_debug_sess.Controller.{index_key, reconcile, find_sessions_for_pod}
use kube_debug_sess.Startup.Flags.{CommandLine, parse_flags}
use kube_debug_sess.Startup.Options.{manager_options}
use kube_debug_sess.Startup.Calls.{
  clientgo_types, debug_types, added_to_scheme, got_config, made_manager, made_clientset,
  indexed_field, completed_controller, added_healthz_check, added_readyz_check, started_manager,
  panicked, died, exited, End, Answers, Program, ◌then◌, call, or_end, or_panic, ignoring,
  init_types, S3Config, Failure, loaded_aws_config, made_s3_client,
}

abbrev target_pod_index_key : String
target_pod_index_key = "targetPodIndexKey"

-- The function of the index: its keys for a session.
abbrev target_pod_keys : DebugSession → List String
target_pod_keys s = index_key s ∷ []

-- The configuration of the S3 client, from the process environment.
abbrev static_credentials_of : String → String → Option (String × String)
static_credentials_of access_key secret_key =
    if not (access_key ==s "") && not (secret_key ==s "")
    then some (access_key, secret_key)
    else none

abbrev s3_config : Env → S3Config
s3_config env = record {
  region = env.getenv "AWS_REGION";
  static_credentials =
      static_credentials_of (env.getenv "AWS_ACCESS_KEY_ID") (env.getenv "AWS_SECRET_ACCESS_KEY");
}

module _ (answers : Answers) where
  -- `NewTerminatingReconciler`, as far as it calls the AWS library: it panics where the
  -- configuration does not load.
  unfoldable new_terminating_reconciler : Env → Program Failure
  new_terminating_reconciler env =
      or_panic (call answers (loaded_aws_config (env.getenv "AWS_REGION")))
      then ignoring answers (made_s3_client (s3_config env))

  -- `GetReconcilers` calls the factory of each phase; only that of Terminating makes calls.
  unfoldable set_up_with_manager : Env → Program Failure
  unfolding new_terminating_reconciler
  set_up_with_manager env =
      new_terminating_reconciler env
      then call answers (indexed_field target_pod_index_key target_pod_keys)
      then call answers (completed_controller (reconcile env) (find_sessions_for_pod env))

  -- `init`: `utilruntime.Must` panics on an error.
  unfoldable init : Program End
  init =
      or_end panicked (call answers (added_to_scheme clientgo_types))
      then or_end panicked (call answers (added_to_scheme debug_types))

  -- `main`: `ctrl.GetConfigOrDie` ends the program itself.
  unfoldable main : Env → CommandLine → Program End
  unfolding set_up_with_manager
  main env line =
      let options = manager_options (parse_flags line) in
      or_end died (call answers got_config)
      then or_end (exited "unable to start manager") (call answers (made_manager options))
      then or_end (exited "unable to create clientset") (call answers made_clientset)
      then or_end (exited "unable to create controller") (set_up_with_manager env)
      then or_end (exited "unable to set up health check")
          (call answers (added_healthz_check "healthz"))
      then or_end (exited "unable to set up ready check")
          (call answers (added_readyz_check "readyz"))
      then or_end (exited "problem running manager") (call answers started_manager)

  -- The program: the packages are initialised before `main`.
  unfoldable pub manager_program : Env → CommandLine → Program End
  unfolding init main
  manager_program env line = init_types answers then init then main env line
