-- ===== src/Cluster.antt =====
-- Everything outside the repository: the API server, the clock, the source of randomness, S3, the
-- webhook and the process environment. An `Env` answers each call from the calls made so far, so it
-- may change its answers at any time; the theorems hold for every `Env`. A computation passes the
-- history of calls along, newest first. Logging is left out.
use kube_debug_sess.Prelude.{ℕ, String, List, ◌∷◌, Option}
use kube_debug_sess.Api.{DebugSession}
use kube_debug_sess.Kube.{NamespacedName, Pod, Node, Service, ApiError, Fallible, LogStream, Json}

pub data Call : Type 0 where
  got_session : NamespacedName → Call
  listed_sessions : Option String → Call
  got_namespace : String → Call
  got_pod : NamespacedName → Call
  updated_status : DebugSession → Call
  updated_ephemeral_containers : String → String → Pod → Call
  got_service : String → String → Call
  listed_nodes : Call
  read_random : ℕ → Call
  read_clock : Call
  opened_log : String → String → String → Call
  put_object : String → String → List ℕ → Call
  posted : String → Json → Call

abbrev pub History : Type 0
History = List Call

-- A status update answers with the object as the call leaves it in memory. `random` gives the
-- source's values, of which a read takes as many as its buffer has bytes. `getenv` and `rfc3339`
-- are fixed for a run of the process.
pub record Env : Type 0 where
  pub session : History → NamespacedName → Fallible ApiError DebugSession
  pub sessions : History → Option String → Fallible ApiError (List DebugSession)
  pub namespace : History → String → Fallible ApiError (Unit {0})
  pub pod : History → NamespacedName → Fallible ApiError Pod
  pub status_answer : History → DebugSession → Fallible ApiError DebugSession
  pub ephemeral_answer : History → String → String → Pod → Fallible ApiError (Unit {0})
  pub service : History → String → String → Fallible ApiError Service
  pub nodes : History → Fallible ApiError (List Node)
  pub random : History → ℕ → Fallible ApiError (ℕ → ℕ)
  pub clock : History → ℕ
  pub log : History → String → String → String → Fallible ApiError LogStream
  pub object_answer : History → String → String → List ℕ → Fallible ApiError (Unit {0})
  pub getenv : String → String
  pub rfc3339 : ℕ → String

abbrev pub M : Type 0 → Type 0
M A = History → A × History

abbrev pub pure : {A : Type 0} → A → M A
pure a h = (a, h)

infixl 5 ◌>>=◌
abbrev pub ◌>>=◌ : {A B : Type 0} → M A → (A → M B) → M B
◌>>=◌ m f h = let (a, h') = m h in f a h'

-- One call: the answer, and the call added to the history.
module _ (env : Env) where
  abbrev pub get_session : NamespacedName → M (Fallible ApiError DebugSession)
  get_session key h = (env.session h key, got_session key ∷ h)

  abbrev pub list_sessions : Option String → M (Fallible ApiError (List DebugSession))
  list_sessions index h = (env.sessions h index, listed_sessions index ∷ h)

  abbrev pub get_namespace : String → M (Fallible ApiError (Unit {0}))
  get_namespace name h = (env.namespace h name, got_namespace name ∷ h)

  abbrev pub get_pod : NamespacedName → M (Fallible ApiError Pod)
  get_pod key h = (env.pod h key, got_pod key ∷ h)

  abbrev pub update_status : DebugSession → M (Fallible ApiError DebugSession)
  update_status s h = (env.status_answer h s, updated_status s ∷ h)

  abbrev pub update_ephemeral_containers : String → String → Pod → M (Fallible ApiError (Unit {0}))
  update_ephemeral_containers ns name pod h =
      (env.ephemeral_answer h ns name pod, updated_ephemeral_containers ns name pod ∷ h)

  abbrev pub get_service : String → String → M (Fallible ApiError Service)
  get_service ns name h = (env.service h ns name, got_service ns name ∷ h)

  abbrev pub list_nodes : M (Fallible ApiError (List Node))
  list_nodes h = (env.nodes h, listed_nodes ∷ h)

  abbrev pub rand_read : ℕ → M (Fallible ApiError (ℕ → ℕ))
  rand_read n h = (env.random h n, read_random n ∷ h)

  abbrev pub now : M ℕ
  now h = (env.clock h, read_clock ∷ h)

  abbrev pub open_log : String → String → String → M (Fallible ApiError LogStream)
  open_log ns pod container h = (env.log h ns pod container, opened_log ns pod container ∷ h)

  abbrev pub put : String → String → List ℕ → M (Fallible ApiError (Unit {0}))
  put bucket key data_bytes h =
      (env.object_answer h bucket key data_bytes, put_object bucket key data_bytes ∷ h)

  abbrev pub post : String → Json → M (Unit {0})
  post url payload h = (tt, posted url payload ∷ h)
