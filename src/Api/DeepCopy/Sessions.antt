-- ===== src/Api/DeepCopy/Sessions.antt =====
-- The deep copies of a session and of a list of sessions.
use kube_debug_sess.Prelude.{suc, ◌≡◌, refl, ap, ◌∙◌, inl, inr, Option, some, arith}
use kube_debug_sess.Api.DeepCopy.Memory.{
  Ptr, Cell, time_cell, session_cell, conditions_cell, SessionObject, StatusObject, Heap, write,
  Action, load_as,
}
use kube_debug_sess.Api.DeepCopy.{
  Library, deep_copy_of, status_deep_copy_into, session_deep_copy_into, session_deep_copy,
}
use kube_debug_sess.Api.DeepCopy.Laws.{
  IsDocumented, Extends, Holds, Holds-Extends, IsCopy, StatusHolds, StatusCopy, bind-some,
  load_as-some, status_deep_copy_into-StatusCopy,
}

-- A session and its copy: the values are the same, the pointers of the status are copies, and the
-- spec is the same, with its pointer.
pub record SessionCopy (h : Heap) (o : SessionObject) (h' : Heap) (o' : SessionObject)
    : Type 0 where
  pub type_metas : o'.type_meta ≡ o.type_meta
  pub metadatas : o'.metadata ≡ o.metadata
  pub specs : o'.spec ≡ o.spec
  pub statuses : StatusCopy h o.status h' o'.status

-- The heap after `new`.
abbrev pub after_new : Heap → Heap
after_new h = record h { next = suc h.next }

pub new-Extends : (h : Heap) → Extends h (after_new h)
new-Extends h = record { grows = omega arith; keeps = λ p lt. refl }

-- The cell of the new object is written last.
pub stored-Extends :
    (h h' : Heap) (c : Cell) → Extends (after_new h) h' → Extends h (write h.next c h')
stored-Extends h h' c e = record {
  grows = omega (arith, e.grows);
  keeps = λ p lt. ground (arith, e.keeps p (omega arith));
}

stored-IsCopy :
    {A : Type 0} (kind : A → Cell) (h h' : Heap) (c : Cell) (o o' : Option Ptr)
    → Holds kind h o
    → IsCopy (after_new h) o h' o'
    → IsCopy h o (write h.next c h') o'
stored-IsCopy kind h h' c o o' held (inl n) = inl n
stored-IsCopy kind h h' c o o' (inl n) (inr (p, q, x, same, copy, lt, at, at', new, used)) =
    absurd (cc (same, n))
stored-IsCopy kind h h' c o o' (inr (p', a, same', lt', held))
      (inr (p, q, x, same, copy, lt, at, at', new, used)) =
    let p_eq : p' ≡ p = cc (same', same) in
    inr (
      p',
      q,
      x,
      same',
      copy,
      lt',
      ap h.cell p_eq ∙ at,
      ground (arith, at', new),
      omega (arith, new),
      used,
    )

stored-StatusCopy :
    (h h' : Heap) (c : Cell) (s s' : StatusObject)
    → StatusHolds h s
    → StatusCopy (after_new h) s h' s'
    → StatusCopy h s (write h.next c h') s'
stored-StatusCopy h h' c s s' (starts, ends, conds) k = record {
  values = k.values;
  start_times = stored-IsCopy time_cell h h' c s.start_time s'.start_time starts k.start_times;
  termination_times =
      stored-IsCopy time_cell h h' c s.termination_time s'.termination_time ends
        k.termination_times;
  conditions_arrays =
      stored-IsCopy conditions_cell h h' c s.conditions_array s'.conditions_array conds
        k.conditions_arrays;
}

pub stored-SessionCopy :
    (h h' : Heap) (c : Cell) (o o' : SessionObject)
    → StatusHolds h o.status
    → SessionCopy (after_new h) o h' o'
    → SessionCopy h o (write h.next c h') o'
stored-SessionCopy h h' c o o' held k = record {
  type_metas = k.type_metas;
  metadatas = k.metadatas;
  specs = k.specs;
  statuses = stored-StatusCopy h h' c o.status o'.status held k.statuses;
}

pub StatusHolds-Extends :
    {h h' : Heap} (s : StatusObject) → Extends h h' → StatusHolds h s → StatusHolds h' s
StatusHolds-Extends s e (starts, ends, conds) = (
  Holds-Extends time_cell s.start_time e starts,
  Holds-Extends time_cell s.termination_time e ends,
  Holds-Extends conditions_cell s.conditions_array e conds,
)

-- `DeepCopy` of a pointer that is not nil.
pub deep_copy_of-some :
    {A : Type 0} (type : Cell → Option A) (cell : A → Cell) (into : A → Action A) (p : Ptr)
    (c : Cell) (a a' : A) (h h' : Heap)
    → h.cell p ≡ some c
    → type c ≡ some a
    → into a (after_new h) ≡ some (a', h')
    → deep_copy_of (load_as type) cell into (some p) h
      ≡ some (some h.next, write h.next (cell a') h')
deep_copy_of-some type cell into p c a a' h h' at e run =
    bind-some (load_as type p) _ (after_new h) a (after_new h)
      (load_as-some type p c a (after_new h) at e)
    ∙ bind-some (into a) _ (after_new h) a' h' run

module _ (lib : Library) (documented : IsDocumented lib) where
  pub session_deep_copy_into-SessionCopy :
      (h : Heap) (o : SessionObject)
      → StatusHolds h o.status
      → (o' : SessionObject) × (h' : Heap) × (session_deep_copy_into lib o h ≡ some (o', h'))
        × Extends h h'
        × SessionCopy h o h' o'
  unfolding session_deep_copy_into
  session_deep_copy_into-SessionCopy h o held =
      let (s, h', e, x, k) = status_deep_copy_into-StatusCopy lib documented h o.status held in
      (
        record o { metadata = lib.copy_object_meta o.metadata; status = s },
        h',
        bind-some (status_deep_copy_into lib o.status) _ h s h' e,
        x,
        record {
          type_metas = refl;
          metadatas = documented.object_metas o.metadata;
          specs = refl;
          statuses = k;
        },
      )

  -- The deep copy of a session is a new object.
  pub session_deep_copy-SessionCopy :
      (h : Heap) (p : Ptr) (o : SessionObject)
      → h.cell p ≡ some (session_cell o)
      → StatusHolds h o.status
      → (o' : SessionObject) × (h' : Heap) × (session_deep_copy lib (some p) h
          ≡ some (some h.next, h'))
        × (h'.cell h.next ≡ some (session_cell o'))
        × Extends h h'
        × SessionCopy h o h' o'
  unfolding session_deep_copy
  session_deep_copy-SessionCopy h p o at held =
      let held' = StatusHolds-Extends o.status (new-Extends h) held in
      let (o', h', e, x, k) = session_deep_copy_into-SessionCopy (after_new h) o held' in
      (
        o',
        write h.next (session_cell o') h',
        deep_copy_of-some _ session_cell (session_deep_copy_into lib) p (session_cell o) o o' h h'
            at refl e,
        ground arith,
        stored-Extends h h' (session_cell o') x,
        stored-SessionCopy h h' (session_cell o') o o' held k,
      )
