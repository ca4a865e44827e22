-- ===== src/Startup/Calls.antt =====
-- The calls of the libraries by which the programs of cmd/ start, and how they end.
-- A call may fail; its answer depends on the calls made before it, newest first. A program passes
-- them along. Log output stands only as the message with which a program exits.
pub mod Order
use kube_debug_sess.Prelude.{String, Option, none, some, List, ◌∷◌}
use kube_debug_sess.Api.{DebugSession}
use kube_debug_sess.Api.Registration.{ApiObject, SchemeBuilder, scheme_builder, registered_objects}
use kube_debug_sess.Kube.{NamespacedName, Fallible, ok, err}
use kube_debug_sess.Cluster.{M}
use kube_debug_sess.SessionPhases.Outcome.{Outcome}
use kube_debug_sess.Proxy.Server.{HttpRequest, Response}
use kube_debug_sess.Startup.Options.{ManagerOptions}

pub data Types : Type 0 where
  clientgo_types : Types
  built_types : SchemeBuilder → Types

-- What the code sets of `aws.Config`: the region it is loaded with, and static credentials, an
-- access key with its secret.
pub record S3Config : Type 0 where
  pub region : String
  pub static_credentials : Option (String × String)

-- A controller is completed with its `Reconcile` and the map from a pod's namespace and name to
-- requests; a path is registered with its `ServeHTTP`.
pub data Step : Type 0 where
  registered_with : SchemeBuilder → List ApiObject → Step
  added_to_scheme : Types → Step
  got_config : Step
  made_manager : ManagerOptions → Step
  made_clientset : Step
  loaded_aws_config : String → Step
  made_s3_client : S3Config → Step
  indexed_field : String → (DebugSession → List String) → Step
  completed_controller :
      (NamespacedName → M Outcome) → (String → String → M (List NamespacedName)) → Step
  added_healthz_check : String → Step
  added_readyz_check : String → Step
  started_manager : Step
  made_client : Step
  handled : String → (HttpRequest → Response) → Step
  listened : String → Step

-- How a program ends early: by a panic, by the library's own exit, or with a message and status 1.
pub data End : Type 0 where
  panicked : End
  died : End
  exited : String → End

-- How a function of the program stops: it returns an error, or it panics.
pub data Failure : Type 0 where
  returned_error : String → Failure
  panic : Failure

-- The error of a call, if it fails.
abbrev pub Answers : Type 0
Answers = List Step → Step → Option String

abbrev pub Program : Type 0 → Type 0
Program E = List Step → Fallible E (Unit {0}) × List Step

-- One program after the other, unless the first fails.
infixl 5 ◌then◌
abbrev pub ◌then◌ : {E : Type 0} → Program E → Program E → Program E
◌then◌ p q log = let (r, log') = p log in elim r [ ok _ ↦ q log' | err e ↦ (err e, log') ]

-- `AddToScheme` of the repository's own types.
abbrev pub debug_types : Types
debug_types = built_types scheme_builder

-- A call that returns its error.
abbrev pub call : Answers → Step → Program Failure
call answers step log =
    (elim (answers log step) [ none ↦ ok tt | some e ↦ err (returned_error e) ], step ∷ log)

-- `if err != nil` with an end of the program.
abbrev pub end_by : End → Failure → End
end_by end (returned_error e) = end
end_by end panic = panicked

abbrev pub or_end : End → Program Failure → Program End
or_end end p log =
    let (r, log') = p log in (elim r [ ok _ ↦ ok tt | err e ↦ err (end_by end e) ], log')

-- `if err != nil` with a panic.
abbrev pub or_panic : Program Failure → Program Failure
or_panic p log = let (r, log') = p log in (elim r [ ok _ ↦ ok tt | err _ ↦ err panic ], log')

-- A call whose error is not read, or that has none.
abbrev pub ignoring : {E : Type 0} → Answers → Step → Program E
ignoring answers step log = (ok tt, step ∷ log)

-- The `init` of the package with the types, which runs before that of a program.
abbrev pub init_types : {E : Type 0} → Answers → Program E
init_types answers = ignoring answers (registered_with scheme_builder registered_objects)
