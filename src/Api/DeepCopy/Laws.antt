-- ===== src/Api/DeepCopy/Laws.antt =====
-- A deep copy has the contents of the original, in new cells, and leaves the cells in use alone.
use kube_debug_sess.Prelude.{
  ℕ, suc, ◌≤◌, ◌<◌, ◌≡◌, refl, sym, ap, ◌∙◌, ◌⊎◌, inl, inr, Option, none, some, List, [], ◌∷◌, map,
  arith,
}
use kube_debug_sess.Api.DeepCopy.Memory.{
  Ptr, Cell, time_cell, conditions_cell, StatusObject, Condition, ObjectMeta, ListMeta, Heap, write,
  Action, ◌>>=◌, load_as, load_conditions,
}
use kube_debug_sess.Api.DeepCopy.{
  Library, copy_time_pointer, copy_conditions, status_deep_copy_into,
}

-- What the libraries document: a copy of a time is a new cell with the same time, and the other
-- copies, of values with no pointers of their own, are equal to what they copy.
pub record IsDocumented (lib : Library) : Type 0 where
  pub times :
      (p : Ptr) (v : ℕ) (h : Heap)
      → h.cell p ≡ some (time_cell v)
      → lib.copy_time p h
        ≡ some (h.next, write h.next (time_cell v) (record h { next = suc h.next }))
  pub condition_copies : (c : Condition) → lib.copy_condition c ≡ c
  pub object_metas : (m : ObjectMeta) → lib.copy_object_meta m ≡ m
  pub list_metas : (m : ListMeta) → lib.copy_list_meta m ≡ m

-- The cells in use are as they were, and may be more.
pub record Extends (h h' : Heap) : Type 0 where
  pub grows : h.next ≤ h'.next
  pub keeps : (p : Ptr) → p < h.next → h'.cell p ≡ h.cell p

-- A pointer that is nil, or at a cell in use with such contents.
abbrev pub Holds : {A : Type 0} → (A → Cell) → Heap → Option Ptr → Type 0
Holds {A} kind h o =
    (o ≡ none) ⊎ ((p : Ptr) × (a : A) × (o ≡ some p) × (p < h.next) × (h.cell p ≡ some (kind a)))

-- A pointer and its copy: both nil, or at cells with the same contents, the copy's a new one.
abbrev pub IsCopy : Heap → Option Ptr → Heap → Option Ptr → Type 0
IsCopy h o h' o' =
    ((o ≡ none) × (o' ≡ none))
    ⊎ ((p : Ptr) × (q : Ptr) × (c : Cell) × (o ≡ some p)
        × (o' ≡ some q)
        × (p < h.next)
        × (h.cell p ≡ some c)
        × (h'.cell q ≡ some c)
        × (h.next ≤ q)
        × (q < h'.next))

abbrev pub StatusHolds : Heap → StatusObject → Type 0
StatusHolds h s =
    Holds time_cell h s.start_time
    × Holds time_cell h s.termination_time
    × Holds conditions_cell h s.conditions_array

-- The values are the same, and the pointers are copies.
pub record StatusCopy (h : Heap) (s : StatusObject) (h' : Heap) (s' : StatusObject) : Type 0 where
  pub values : s' ≡ record s {
    start_time = s'.start_time;
    termination_time = s'.termination_time;
    conditions_array = s'.conditions_array;
  }
  pub start_times : IsCopy h s.start_time h' s'.start_time
  pub termination_times : IsCopy h s.termination_time h' s'.termination_time
  pub conditions_arrays : IsCopy h s.conditions_array h' s'.conditions_array

pub Extends-trans : {h h' h'' : Heap} → Extends h h' → Extends h' h'' → Extends h h''
Extends-trans e f = record {
  grows = omega (arith, e.grows, f.grows);
  keeps = λ p lt. f.keeps p (omega (arith, e.grows)) ∙ e.keeps p lt;
}

pub Holds-Extends :
    {A : Type 0} (kind : A → Cell) {h h' : Heap} (o : Option Ptr)
    → Extends h h'
    → Holds kind h o
    → Holds kind h' o
Holds-Extends kind o e (inl n) = inl n
Holds-Extends kind o e (inr (p, a, same, lt, at)) =
    inr (p, a, same, omega (arith, e.grows), e.keeps p lt ∙ at)

-- A copy that is made later, and one that is kept.
pub IsCopy-before :
    {A : Type 0} (kind : A → Cell) {h h' h'' : Heap} (o o' : Option Ptr)
    → Holds kind h o
    → Extends h h'
    → IsCopy h' o h'' o'
    → IsCopy h o h'' o'
IsCopy-before kind o o' held e (inl n) = inl n
IsCopy-before kind o o' (inl n) e (inr (p, q, c, same, copy, lt, at, at', new, used)) =
    absurd (cc (same, n))
IsCopy-before kind {h' = h'} o o' (inr (p', a, same', lt', held)) e
      (inr (p, q, c, same, copy, lt, at, at', new, used)) =
    let p_eq : p' ≡ p = cc (same', same) in
    inr (
      p',
      q,
      c,
      same',
      copy,
      lt',
      sym (e.keeps p' lt') ∙ ap h'.cell p_eq ∙ at,
      at',
      omega (arith, e.grows, new),
      used,
    )

pub IsCopy-Extends :
    {h h' h'' : Heap} (o o' : Option Ptr) → IsCopy h o h' o' → Extends h' h'' → IsCopy h o h'' o'
IsCopy-Extends o o' (inl n) e = inl n
IsCopy-Extends o o' (inr (p, q, c, same, copy, lt, at, at', new, used)) e =
    inr (p, q, c, same, copy, lt, at, e.keeps q used ∙ at', new, omega (arith, e.grows))

-- A new cell.
write-Extends : (h : Heap) (c : Cell) → Extends h (write h.next c (record h { next = suc h.next }))
write-Extends h c = record { grows = omega arith; keeps = λ p lt. ground arith }

write-IsCopy :
    (h : Heap) (o : Option Ptr) (p : Ptr) (c : Cell)
    → o ≡ some p
    → p < h.next
    → h.cell p ≡ some c
    → IsCopy h o (write h.next c (record h { next = suc h.next })) (some h.next)
write-IsCopy h o p c same lt at =
    inr (p, h.next, c, same, refl, lt, at, ground arith, omega arith, omega arith)

pub Extends-refl : (h : Heap) → Extends h h
Extends-refl h = record { grows = omega arith; keeps = λ p lt. refl }

map-same : {A : Type 0} (f : A → A) → ((a : A) → f a ≡ a) → (l : List A) → map f l ≡ l
map-same f e [] = refl
map-same f e (a ∷ l) = rw (e a, map-same f e l) refl

-- A block whose first part does not fault.
pub bind-some :
    {A B : Type 0} (m : Action A) (f : A → Action B) (h : Heap) (a : A) (h' : Heap)
    → m h ≡ some (a, h')
    → (m >>= f) h ≡ f a h'
bind-some m f h a h' e = ap (λ r. elim r [ none ↦ none | some (b, k) ↦ f b k ]) e

pub load_as-some :
    {A : Type 0} (type : Cell → Option A) (p : Ptr) (c : Cell) (a : A) (h : Heap)
    → h.cell p ≡ some c
    → type c ≡ some a
    → load_as type p h ≡ some (a, h)
load_as-some type p c a h at e = ground (arith, at, e)

module _ (lib : Library) (documented : IsDocumented lib) where
  -- The copy of a pointer that a computation makes.
  abbrev Copies : (Option Ptr → Heap → Option (Option Ptr × Heap)) → Heap → Option Ptr → Type 0
  Copies f h o =
      (o' : Option Ptr) × (h' : Heap) × (f o h ≡ some (o', h')) × Extends h h' × IsCopy h o h' o'

  copy_time_pointer-Copies :
      (h : Heap) (o : Option Ptr) → Holds time_cell h o → Copies (copy_time_pointer lib) h o
  unfolding copy_time_pointer
  copy_time_pointer-Copies h o (inl n) = (none, h, rw n refl, Extends-refl h, inl (n, refl))
  copy_time_pointer-Copies h o (inr (p, v, same, lt, at)) = (
    some h.next,
    write h.next (time_cell v) (record h { next = suc h.next }),
    ap (λ x. copy_time_pointer lib x h) same
        ∙ bind-some (lib.copy_time p) _ h _ _ (documented.times p v h at),
    write-Extends h (time_cell v),
    write-IsCopy h o p (time_cell v) same lt at,
  )

  copy_conditions-Copies :
      (h : Heap) (o : Option Ptr) → Holds conditions_cell h o → Copies (copy_conditions lib) h o
  unfolding copy_conditions
  copy_conditions-Copies h o (inl n) = (none, h, rw n refl, Extends-refl h, inl (n, refl))
  copy_conditions-Copies h o (inr (p, l, same, lt, at)) = (
    some h.next,
    write h.next (conditions_cell l) (record h { next = suc h.next }),
    ap (λ x. copy_conditions lib x h) same
        ∙ bind-some (load_conditions p) _ h l h (load_as-some _ p (conditions_cell l) l h at refl)
        ∙ ap
            (λ x.
              some (some h.next, write h.next (conditions_cell x) (record h { next = suc h.next })))
            (map-same lib.copy_condition documented.condition_copies l),
    write-Extends h (conditions_cell l),
    write-IsCopy h o p (conditions_cell l) same lt at,
  )

  pub status_deep_copy_into-StatusCopy :
      (h : Heap) (s : StatusObject)
      → StatusHolds h s
      → (s' : StatusObject) × (h' : Heap) × (status_deep_copy_into lib s h ≡ some (s', h'))
        × Extends h h'
        × StatusCopy h s h' s'
  unfolding status_deep_copy_into
  status_deep_copy_into-StatusCopy h s (starts, ends, conds) =
      let (o₁, h₁, e₁, x₁, c₁) = copy_time_pointer-Copies h s.start_time starts in
      let (o₂, h₂, e₂, x₂, c₂) =
        copy_time_pointer-Copies h₁ s.termination_time
          (Holds-Extends time_cell s.termination_time x₁ ends) in
      let x₁₂ = Extends-trans x₁ x₂ in
      let (o₃, h₃, e₃, x₃, c₃) =
        copy_conditions-Copies h₂ s.conditions_array
          (Holds-Extends conditions_cell s.conditions_array x₁₂ conds) in
      (
        record s { start_time = o₁; termination_time = o₂; conditions_array = o₃ },
        h₃,
        bind-some (copy_time_pointer lib s.start_time) _ h _ _ e₁
            ∙ bind-some (copy_time_pointer lib s.termination_time) _ h₁ _ _ e₂
            ∙ bind-some (copy_conditions lib s.conditions_array) _ h₂ _ _ e₃,
        Extends-trans x₁₂ x₃,
        record {
          values = refl;
          start_times = IsCopy-Extends s.start_time o₁ c₁ (Extends-trans x₂ x₃);
          termination_times =
              IsCopy-Extends s.termination_time o₂
                (IsCopy-before time_cell s.termination_time o₂ ends x₁ c₂) x₃;
          conditions_arrays = IsCopy-before conditions_cell s.conditions_array o₃ conds x₁₂ c₃;
        },
      )
