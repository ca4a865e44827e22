-- ===== src/Kube.antt =====
-- The objects of the Kubernetes API that the code handles (k8s.io/api/core/v1), with the fields
-- that it reads or writes, and the errors and results that travel between it and the API.
use kube_debug_sess.Prelude.{ℕ, ◌≡◌, refl, ◌⊎◌, inl, inr, String, Bool, List, Option}
use kube_debug_sess.Prelude.Int.{ℤ}
use kube_debug_sess.Api.{Capabilities}

pub record NamespacedName : Type 0 where
  pub name : String
  pub namespace : String

pub record SecurityContext : Type 0 where
  pub run_as_non_root : Option Bool
  pub run_as_user : Option ℤ
  pub run_as_group : Option ℤ
  pub privileged : Option Bool
  pub allow_privilege_escalation : Option Bool
  pub read_only_root_filesystem : Option Bool
  pub capabilities : Option Capabilities

pub record EphemeralContainer : Type 0 where
  pub name : String
  pub image : String
  pub command : List String
  pub args : List String
  pub stdin : Bool
  pub tty : Bool
  pub env : List (String × String)
  pub security_context : Option SecurityContext
  pub target_container_name : String

-- `State`: whether `Running` is set, and the reasons of `Waiting` and `Terminated` where set.
pub record ContainerStatus : Type 0 where
  pub name : String
  pub running : Bool
  pub waiting : Option String
  pub terminated : Option String

-- Of `Spec.Containers` the code reads the names alone.
pub record Pod : Type 0 where
  pub name : String
  pub namespace : String
  pub containers : List String
  pub share_process_namespace : Option Bool
  pub ephemeral_containers : List EphemeralContainer
  pub phase : String
  pub ephemeral_container_statuses : List ContainerStatus

pub data AddressType : Type 0 where
  external_ip internal_ip other_address : AddressType

pub record NodeAddress : Type 0 where
  pub kind : AddressType
  pub address : String

-- A node, by its `Status.Addresses`; a service, by the `NodePort` of each of its ports (int32).
abbrev pub Node : Type 0
Node = List NodeAddress

abbrev pub Service : Type 0
Service = List ℤ

-- An error of the API: what `errors.IsNotFound` says of it, and its text.
pub record ApiError : Type 0 where
  pub is_not_found : Bool
  pub text : String

-- An answer with a Go error beside it.
pub data Fallible {ℓ κ} (E : Type ℓ) (A : Type κ) : Type (ℓ ⊔ κ) where
  ok : A → Fallible E A
  err : E → Fallible E A

pub Fallible-cases {ℓ κ} :
    {E : Type ℓ} {A : Type κ} (f : Fallible E A) → ((a : A) × (f ≡ ok a)) ⊎ ((e : E) × (f ≡ err e))
Fallible-cases (ok a) = inl (a, refl)
Fallible-cases (err e) = inr (e, refl)

-- What is left to read of a log: each read gives bytes and goes on, ends (io.EOF), or fails.
pub data LogStream : Type 0 where
  eof : List ℕ → LogStream
  broken : List ℕ → String → LogStream
  chunk : List ℕ → LogStream → LogStream

-- The JSON values that the webhook sends.
mutual
  pub data Json : Type 0 where
    string : String → Json
    number : ℕ → Json
    array : Items → Json
    object : Fields → Json

  pub data Items : Type 0 where
    nil : Items
    item : Json → Items → Items

  pub data Fields : Type 0 where
    end : Fields
    field : String → Json → Fields → Fields
