-- ===== src/Api/DeepCopy/Memory.antt =====
-- The objects of api/v1alpha1/debugsession_types.go as they lie in memory, with their pointers, and
-- the heap. A slice that is not nil is a pointer to its array; a pointer that no cell is at is a
-- fault.
use kube_debug_sess.Prelude.{ℕ, suc, String, Bool, Option, none, some, List, ◌==◌, if◌then◌else◌}
use kube_debug_sess.Prelude.Int.{ℤ}
use kube_debug_sess.Api.{SessionPhase, DebugSecurityContext}

abbrev pub Ptr : Type 0
Ptr = ℕ

pub record TypeMeta : Type 0 where
  pub kind : String
  pub api_version : String

pub record ObjectMeta : Type 0 where
  pub name : String
  pub namespace : String
  pub uid : String

pub record ListMeta : Type 0 where
  pub resource_version : String

pub record Condition : Type 0 where
  pub type_name : String
  pub condition_status : String
  pub reason : String
  pub condition_message : String
  pub last_transition_time : ℕ

-- `DebugSessionSpec`, with the pointer `DebugSecurity`.
pub record SpecObject : Type 0 where
  pub target_pod_name : String
  pub target_container_name : String
  pub target_namespace : String
  pub debugger_image : String
  pub ttl : ℤ
  pub max_retry_count : ℤ
  pub debug_security : Option Ptr

-- `DebugSessionStatus`, with three pointers.
pub record StatusObject : Type 0 where
  pub phase : SessionPhase
  pub message : String
  pub start_time : Option Ptr
  pub termination_time : Option Ptr
  pub debugging_container_name : String
  pub ready_for_attach : Bool
  pub one_time_token : String
  pub retry_count : ℤ
  pub conditions_array : Option Ptr

pub record SessionObject : Type 0 where
  pub type_meta : TypeMeta
  pub metadata : ObjectMeta
  pub spec : SpecObject
  pub status : StatusObject

pub record ListObject : Type 0 where
  pub list_type_meta : TypeMeta
  pub list_metadata : ListMeta
  pub items_array : Option Ptr

pub data Cell : Type 0 where
  time_cell : ℕ → Cell
  security_cell : DebugSecurityContext → Cell
  conditions_cell : List Condition → Cell
  spec_cell : SpecObject → Cell
  status_cell : StatusObject → Cell
  session_cell : SessionObject → Cell
  items_cell : List SessionObject → Cell
  list_cell : ListObject → Cell

-- The cells below `next` are in use.
pub record Heap : Type 0 where
  pub next : Ptr
  pub cell : Ptr → Option Cell

abbrev pub write : Ptr → Cell → Heap → Heap
write p c h = record h { cell = λ q. if p == q then some c else h.cell q }

-- What Go code does to the heap, with its value, unless it faults.
abbrev pub Action : Type 0 → Type 0
Action A = (before : Heap) → Option (A × Heap)

-- `new`, and a write to a cell.
abbrev pub new : Action Ptr
new h = some (h.next, record h { next = suc h.next })

abbrev pub store : Ptr → Cell → Action (Unit {0})
store p c h = some (tt, write p c h)

infixl 5 ◌>>=◌
abbrev pub ◌>>=◌ : {A B : Type 0} → Action A → (A → Action B) → Action B
◌>>=◌ first rest before = elim (first before) [
  | some (value, after) ↦ rest value after
  | none ↦ none
]

-- A read that expects a type: any other cell is a fault.
abbrev pub load_as : {A : Type 0} → (Cell → Option A) → Ptr → Action A
load_as type p h = elim (h.cell p) [
  | none ↦ none
  | some c ↦ elim (type c) [ none ↦ none | some a ↦ some (a, h) ]
]

abbrev pub load_session : Ptr → Action SessionObject
load_session =
    load_as (λ c. elim c as (λ x. Option SessionObject) [ session_cell o ↦ some o | _ ↦ none ])

abbrev pub load_list : Ptr → Action ListObject
load_list = load_as (λ c. elim c as (λ x. Option ListObject) [ list_cell o ↦ some o | _ ↦ none ])

abbrev pub load_items : Ptr → Action (List SessionObject)
load_items =
    load_as (λ c. elim c as (λ x. Option (List SessionObject)) [ items_cell o ↦ some o | _ ↦ none ])

abbrev pub load_conditions : Ptr → Action (List Condition)
load_conditions =
    load_as
      (λ c. elim c as (λ x. Option (List Condition)) [ conditions_cell o ↦ some o | _ ↦ none ])

abbrev pub load_spec : Ptr → Action SpecObject
load_spec = load_as (λ c. elim c as (λ x. Option SpecObject) [ spec_cell o ↦ some o | _ ↦ none ])

abbrev pub load_status : Ptr → Action StatusObject
load_status =
    load_as (λ c. elim c as (λ x. Option StatusObject) [ status_cell o ↦ some o | _ ↦ none ])

abbrev pub pure : {A : Type 0} → A → Action A
pure value before = some (value, before)
