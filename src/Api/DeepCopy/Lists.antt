-- ===== src/Api/DeepCopy/Lists.antt =====
-- The deep copy of a list of sessions, and what a deep copy of a session shares with the original.
use kube_debug_sess.Prelude.{◌<◌, ◌≡◌, refl, ap, ◌∙◌, Option, none, some, List, [], ◌∷◌, All, arith}
use kube_debug_sess.Api.{DebugSecurityContext}
use kube_debug_sess.Api.DeepCopy.Memory.{
  Ptr, Cell, time_cell, security_cell, session_cell, conditions_cell, items_cell, list_cell,
  SessionObject, StatusObject, ListObject, Heap, write, load_items,
}
use kube_debug_sess.Api.DeepCopy.{
  Library, list_object, session_object, session_deep_copy_object, list_deep_copy_object,
  session_deep_copy_into, session_deep_copy, copy_items, copy_items_array, list_deep_copy_into,
  list_deep_copy,
}
use kube_debug_sess.Api.DeepCopy.Laws.{
  IsDocumented, Extends, Extends-trans, Extends-refl, IsCopy-before, IsCopy-Extends, StatusHolds,
  StatusCopy, bind-some, load_as-some,
}
use kube_debug_sess.Api.DeepCopy.View.{security_at}
use kube_debug_sess.Api.DeepCopy.Sessions.{
  SessionCopy, after_new, new-Extends, stored-Extends, stored-SessionCopy, StatusHolds-Extends,
  deep_copy_of-some, session_deep_copy_into-SessionCopy, session_deep_copy-SessionCopy,
}

-- Item by item.
pub data ItemsCopy (h h' : Heap) : List SessionObject → List SessionObject → Type 0 where
  no_items : ItemsCopy h h' [] []
  item_copy :
      {o o' : SessionObject} {l l' : List SessionObject}
      → SessionCopy h o h' o'
      → ItemsCopy h h' l l'
      → ItemsCopy h h' (o ∷ l) (o' ∷ l')

abbrev ItemsHold : Heap → List SessionObject → Type 0
ItemsHold h l = All (λ o. StatusHolds h o.status) l

StatusCopy-before :
    {h h' h'' : Heap} (s s' : StatusObject)
    → StatusHolds h s
    → Extends h h'
    → StatusCopy h' s h'' s'
    → StatusCopy h s h'' s'
StatusCopy-before s s' (starts, ends, conds) e k = record {
  values = k.values;
  start_times = IsCopy-before time_cell s.start_time s'.start_time starts e k.start_times;
  termination_times =
      IsCopy-before time_cell s.termination_time s'.termination_time ends e k.termination_times;
  conditions_arrays =
      IsCopy-before conditions_cell s.conditions_array s'.conditions_array conds e
        k.conditions_arrays;
}

SessionCopy-before :
    {h h' h'' : Heap} (o o' : SessionObject)
    → StatusHolds h o.status
    → Extends h h'
    → SessionCopy h' o h'' o'
    → SessionCopy h o h'' o'
SessionCopy-before o o' held e k = record {
  type_metas = k.type_metas;
  metadatas = k.metadatas;
  specs = k.specs;
  statuses = StatusCopy-before o.status o'.status held e k.statuses;
}

StatusCopy-Extends :
    {h h' h'' : Heap} (s s' : StatusObject)
    → StatusCopy h s h' s'
    → Extends h' h''
    → StatusCopy h s h'' s'
StatusCopy-Extends s s' k e = record {
  values = k.values;
  start_times = IsCopy-Extends s.start_time s'.start_time k.start_times e;
  termination_times = IsCopy-Extends s.termination_time s'.termination_time k.termination_times e;
  conditions_arrays = IsCopy-Extends s.conditions_array s'.conditions_array k.conditions_arrays e;
}

SessionCopy-Extends :
    {h h' h'' : Heap} (o o' : SessionObject)
    → SessionCopy h o h' o'
    → Extends h' h''
    → SessionCopy h o h'' o'
SessionCopy-Extends o o' k e = record {
  type_metas = k.type_metas;
  metadatas = k.metadatas;
  specs = k.specs;
  statuses = StatusCopy-Extends o.status o'.status k.statuses e;
}

ItemsHold-Extends :
    {h h' : Heap} (l : List SessionObject) → Extends h h' → ItemsHold h l → ItemsHold h' l
ItemsHold-Extends [] e held = tt
ItemsHold-Extends (o ∷ l) e (a, b) = (StatusHolds-Extends o.status e a, ItemsHold-Extends l e b)

ItemsCopy-before :
    {h h' h'' : Heap} {l l' : List SessionObject}
    → Extends h h'
    → ItemsCopy h' h'' l l'
    → ItemsHold h l
    → ItemsCopy h h'' l l'
ItemsCopy-before e no_items held = no_items
ItemsCopy-before e (item_copy {o} {o'} k r) (a, b) =
    item_copy (SessionCopy-before o o' a e k) (ItemsCopy-before e r b)

stored-ItemsCopy :
    (h h' : Heap) (c : Cell) {l l' : List SessionObject}
    → ItemsCopy (after_new h) h' l l'
    → ItemsHold h l
    → ItemsCopy h (write h.next c h') l l'
stored-ItemsCopy h h' c no_items held = no_items
stored-ItemsCopy h h' c (item_copy {o} {o'} k r) (a, b) =
    item_copy (stored-SessionCopy h h' c o o' a k) (stored-ItemsCopy h h' c r b)

module _ (lib : Library) (documented : IsDocumented lib) where
  copy_items-ItemsCopy :
      (l : List SessionObject) (h : Heap)
      → ItemsHold h l
      → (l' : List SessionObject) × (h' : Heap) × (copy_items lib l h ≡ some (l', h'))
        × Extends h h'
        × ItemsCopy h h' l l'
  unfolding copy_items
  copy_items-ItemsCopy [] h held = ([], h, refl, Extends-refl h, no_items)
  copy_items-ItemsCopy (o ∷ l) h (a, b) =
      let (o', h₁, e₁, x₁, k) = session_deep_copy_into-SessionCopy lib documented h o a in
      let (l', h₂, e₂, x₂, r) = copy_items-ItemsCopy l h₁ (ItemsHold-Extends l x₁ b) in
      (
        o' ∷ l',
        h₂,
        bind-some (session_deep_copy_into lib o) _ h o' h₁ e₁
            ∙ bind-some (copy_items lib l) _ h₁ l' h₂ e₂,
        Extends-trans x₁ x₂,
        item_copy (SessionCopy-Extends o o' k x₂) (ItemsCopy-before x₁ r b),
      )

  -- Where the library copies as it documents, a list with an array of items, whose statuses hold
  -- what they point to, is copied without a fault: the copy is a new object with a new array,
  -- whose items are those of the original with new cells for the times and the conditions, of the
  -- same contents, and the cells in use are as they were.
  pub list_deep_copy_object-ItemsCopy :
      (h : Heap) (p a : Ptr) (o : ListObject) (l : List SessionObject)
      → h.cell p ≡ some (list_cell o)
      → o.items_array ≡ some a
      → h.cell a ≡ some (items_cell l)
      → ItemsHold h l
      → (o' : ListObject) × (b : Ptr) × (l' : List SessionObject) × (h' : Heap)
        × (list_deep_copy_object lib (some p) h ≡ some (some (list_object h.next), h'))
        × (h'.cell h.next ≡ some (list_cell o'))
        × (o' ≡ record o { items_array = some b })
        × (h.next < b)
        × (h'.cell b ≡ some (items_cell l'))
        × Extends h h'
        × ItemsCopy h h' l l'
  unfolding list_deep_copy_object list_deep_copy list_deep_copy_into copy_items_array
  list_deep_copy_object-ItemsCopy h p a o l at array items held =
      let h₁ = after_new h in
      let h₂ = after_new h₁ in
      let x₁ = new-Extends h in
      let (l', h₃, e, x₃, r) =
        copy_items-ItemsCopy l h₂ (ItemsHold-Extends l (Extends-trans x₁ (new-Extends h₁)) held) in
      let h₄ = write h₁.next (items_cell l') h₃ in
      let o' = record o {
        list_metadata = lib.copy_list_meta o.list_metadata;
        items_array = some h₁.next;
      } in
      let run =
        ap (λ x. copy_items_array lib x h₁) array
        ∙ bind-some (load_items a) _ h₁ l h₁ (load_as-some _ a (items_cell l) l h₁ items refl)
        ∙ bind-some (copy_items lib l) _ h₂ l' h₃ e in
      (
        o',
        h₁.next,
        l',
        write h.next (list_cell o') h₄,
        bind-some (list_deep_copy lib (some p)) _ h (some h.next) _ (
            deep_copy_of-some _ list_cell (list_deep_copy_into lib) p (list_cell o) o o' h h₄ at
              refl (bind-some (copy_items_array lib o.items_array) _ h₁ (some h₁.next) h₄ run)),
        ground arith,
        ap (λ m. record o { list_metadata = m; items_array = some h₁.next })
            (documented.list_metas o.list_metadata),
        omega arith,
        ground arith,
        stored-Extends h h₄ (list_cell o') (stored-Extends h₁ h₃ (items_cell l') x₃),
        stored-ItemsCopy h h₄ (list_cell o')
            (stored-ItemsCopy h₁ h₃ (items_cell l') r (ItemsHold-Extends l x₁ held)) held,
      )

-- What a session reads through the pointer of its spec, and a write through it.
abbrev pub security_of : Heap → SessionObject → Option DebugSecurityContext
security_of h o = security_at h o.spec.debug_security

abbrev pub set_security : Heap → SessionObject → DebugSecurityContext → Heap
set_security h o c = elim (o.spec.debug_security) [
  | none ↦ h
  | some d ↦ write d (security_cell c) h
]

-- Where the library copies as it documents, the deep copy of a session shares the security options
-- of its spec: for a session that has some, and whose status holds what it points to, a write
-- through the pointer of the copy, of any options, is what the original then reads.
pub session_deep_copy_object-shares :
    (lib : Library) (h : Heap) (p d : Ptr) (o : SessionObject) (c : DebugSecurityContext)
    → IsDocumented lib
    → h.cell p ≡ some (session_cell o)
    → StatusHolds h o.status
    → o.spec.debug_security ≡ some d
    → (o' : SessionObject) × (h' : Heap) × (session_deep_copy_object lib (some p) h
        ≡ some (some (session_object h.next), h'))
      × (h'.cell h.next ≡ some (session_cell o'))
      × (security_of (set_security h' o' c) o ≡ some c)
unfolding session_deep_copy_object
session_deep_copy_object-shares lib h p d o c documented at held same =
    let (o', h', e, found, x, k) = session_deep_copy-SessionCopy lib documented h p o at held in
    let same' : o'.spec.debug_security ≡ some d = ap (λ s. s.debug_security) k.specs ∙ same in
    (
      o',
      h',
      bind-some (session_deep_copy lib (some p)) _ h (some h.next) h' e,
      found,
      ground (arith, same, same'),
    )
