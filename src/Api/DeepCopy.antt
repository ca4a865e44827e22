-- ===== src/Api/DeepCopy.antt =====
-- api/v1alpha1/zz_generated.deepcopy.go: the copies that the client's cache hands out, on a heap.
-- Of the library types the fields stand that this repository reads, and their own deep copies are
-- parameters. Memory that `new` returns is written before it is read.
pub mod Memory
pub mod Laws
pub mod Sessions
pub mod View
pub mod Lists
use kube_debug_sess.Prelude.{Option, none, some, List, [], ◌∷◌, map}
use kube_debug_sess.Api.DeepCopy.Memory.{
  Ptr, Cell, session_cell, list_cell, items_cell, conditions_cell, spec_cell, status_cell,
  SessionObject, ListObject, SpecObject, StatusObject, Condition, ObjectMeta, ListMeta, Action,
  pure, ◌>>=◌, load_session, load_list, load_items, load_conditions, load_spec, load_status, new,
  store,
}

-- `metav1.Time.DeepCopy`, and the `DeepCopyInto` of `Condition`, `ObjectMeta` and `ListMeta`.
pub record Library : Type 0 where
  pub copy_time : Ptr → Action Ptr
  pub copy_condition : Condition → Condition
  pub copy_object_meta : ObjectMeta → ObjectMeta
  pub copy_list_meta : ListMeta → ListMeta

-- An object of `runtime.Object`.
pub data RuntimeObject : Type 0 where
  session_object : Ptr → RuntimeObject
  list_object : Ptr → RuntimeObject

-- A new cell with a value.
abbrev pub make : Cell → Action Ptr
make c = do p ← new; _ ← store p c; pure p

-- `DeepCopy` of any of the types: nil for nil, else a new object that the receiver is copied into.
abbrev pub deep_copy_of :
    {A : Type 0} → (Ptr → Action A) → (A → Cell) → (A → Action A) → Option Ptr → Action (Option Ptr)
deep_copy_of load cell deep_copy_into none = pure none
deep_copy_of load cell deep_copy_into (some p) = do
  out ← new
  value ← load p
  copied ← deep_copy_into value
  _ ← store out (cell copied)
  pure (some out)

-- The end of `DeepCopyObject`, which returns a plain nil for a nil pointer.
abbrev as_object : (Ptr → RuntimeObject) → Option Ptr → Option RuntimeObject
as_object object none = none
as_object object (some p) = some (object p)

-- `DebugSessionSpec`: `*out = *in`.
unfoldable spec_deep_copy_into : SpecObject → Action SpecObject
spec_deep_copy_into s = pure s

unfoldable pub spec_deep_copy : Option Ptr → Action (Option Ptr)
unfolding spec_deep_copy_into
spec_deep_copy = deep_copy_of load_spec spec_cell spec_deep_copy_into

module _ (lib : Library) where
  -- `if in.StartTime != nil`
  unfoldable pub copy_time_pointer : Option Ptr → Action (Option Ptr)
  copy_time_pointer none = pure none
  copy_time_pointer (some p) = do q ← lib.copy_time p; pure (some q)

  -- `if in.Conditions != nil`, with the loop over them.
  unfoldable pub copy_conditions : Option Ptr → Action (Option Ptr)
  copy_conditions none = pure none
  copy_conditions (some p) = do
    l ← load_conditions p
    q ← make (conditions_cell (map lib.copy_condition l))
    pure (some q)

  unfoldable pub status_deep_copy_into : StatusObject → Action StatusObject
  unfolding copy_time_pointer copy_conditions
  status_deep_copy_into s = do
    start_time ← copy_time_pointer s.start_time
    termination_time ← copy_time_pointer s.termination_time
    conditions_array ← copy_conditions s.conditions_array
    pure (record s {
      start_time = start_time;
      termination_time = termination_time;
      conditions_array = conditions_array;
    })

  unfoldable pub status_deep_copy : Option Ptr → Action (Option Ptr)
  unfolding status_deep_copy_into
  status_deep_copy = deep_copy_of load_status status_cell status_deep_copy_into

  -- `DebugSession`: `out.Spec = in.Spec`.
  unfoldable pub session_deep_copy_into : SessionObject → Action SessionObject
  unfolding status_deep_copy_into
  session_deep_copy_into o = do
    copied ← status_deep_copy_into o.status
    pure (record o { metadata = lib.copy_object_meta o.metadata; status = copied })

  unfoldable pub session_deep_copy : Option Ptr → Action (Option Ptr)
  unfolding session_deep_copy_into
  session_deep_copy = deep_copy_of load_session session_cell session_deep_copy_into

  unfoldable pub session_deep_copy_object : Option Ptr → Action (Option RuntimeObject)
  unfolding session_deep_copy
  session_deep_copy_object p = do c ← session_deep_copy p; pure (as_object session_object c)

  -- The loop over the items.
  unfoldable pub copy_items : List SessionObject → Action (List SessionObject)
  unfolding session_deep_copy_into
  copy_items [] = pure []
  copy_items (o ∷ l) = do
    copied ← session_deep_copy_into o
    rest ← copy_items l
    pure (copied ∷ rest)

  -- `if in.Items != nil`
  unfoldable pub copy_items_array : Option Ptr → Action (Option Ptr)
  unfolding copy_items
  copy_items_array none = pure none
  copy_items_array (some p) = do
    l ← load_items p
    q ← new
    copied ← copy_items l
    _ ← store q (items_cell copied)
    pure (some q)

  unfoldable pub list_deep_copy_into : ListObject → Action ListObject
  unfolding copy_items_array
  list_deep_copy_into o = do
    copied ← copy_items_array o.items_array
    pure (record o { list_metadata = lib.copy_list_meta o.list_metadata; items_array = copied })

  unfoldable pub list_deep_copy : Option Ptr → Action (Option Ptr)
  unfolding list_deep_copy_into
  list_deep_copy = deep_copy_of load_list list_cell list_deep_copy_into

  unfoldable pub list_deep_copy_object : Option Ptr → Action (Option RuntimeObject)
  unfolding list_deep_copy
  list_deep_copy_object p = do c ← list_deep_copy p; pure (as_object list_object c)
