-- ===== src/Api/DeepCopy/View.antt =====
-- The session that an object stands for, and that its deep copy stands for: what lets the
-- reconcilers, which change a copy of what the client's cache holds, be modelled on values.
use kube_debug_sess.Prelude.{
  ℕ, ◌≤◌, ◌≡◌, sym, ap, ◌∙◌, inl, inr, Option, none, some, List, [], ◌∷◌, ◌++◌, All, All-append,
  All-implies, arith,
}
use kube_debug_sess.Api.{DebugSecurityContext, DebugSession}
use kube_debug_sess.Api.DeepCopy.Memory.{
  Ptr, Cell, time_cell, security_cell, session_cell, SessionObject, SpecObject, StatusObject,
  ObjectMeta, Heap, write,
}
use kube_debug_sess.Api.DeepCopy.{
  Library, session_object, session_deep_copy, session_deep_copy_object,
}
use kube_debug_sess.Api.DeepCopy.Laws.{
  bind-some, IsDocumented, Extends, Holds, IsCopy, StatusHolds, StatusCopy,
}
use kube_debug_sess.Api.DeepCopy.Sessions.{SessionCopy, session_deep_copy-SessionCopy}

-- What a pointer points to.
abbrev in_cell : {A : Type 0} → (Cell → Option A) → Option Cell → Option A
in_cell type none = none
in_cell type (some c) = type c

abbrev pointed : {A : Type 0} → (Cell → Option A) → Heap → Option Ptr → Option A
pointed type h none = none
pointed type h (some p) = in_cell type (h.cell p)

abbrev time_type : Cell → Option ℕ
time_type (time_cell t) = some t
time_type _ = none

abbrev security_type : Cell → Option DebugSecurityContext
security_type (security_cell s) = some s
security_type _ = none

abbrev time_at : Heap → Option Ptr → Option ℕ
time_at = pointed time_type

abbrev pub security_at : Heap → Option Ptr → Option DebugSecurityContext
security_at = pointed security_type

abbrev view_of :
    ObjectMeta
    → SpecObject
    → Option DebugSecurityContext
    → StatusObject
    → Option ℕ
    → Option ℕ
    → DebugSession
view_of m p security s start_time termination_time = record {
  name = m.name;
  namespace = m.namespace;
  uid = m.uid;
  spec = record {
    target_pod_name = p.target_pod_name;
    target_container_name = p.target_container_name;
    target_namespace = p.target_namespace;
    debugger_image = p.debugger_image;
    ttl = p.ttl;
    max_retry_count = p.max_retry_count;
    debug_security = security;
  };
  status = record {
    phase = s.phase;
    message = s.message;
    start_time = start_time;
    termination_time = termination_time;
    debugging_container_name = s.debugging_container_name;
    ready_for_attach = s.ready_for_attach;
    one_time_token = s.one_time_token;
    retry_count = s.retry_count;
  };
}

-- The value of an object, with what its pointers point to.
abbrev pub view : Heap → SessionObject → DebugSession
view h o =
    view_of o.metadata o.spec (security_at h o.spec.debug_security) o.status
      (time_at h o.status.start_time) (time_at h o.status.termination_time)

-- The cells that a status points to.
abbrev pointer : Option Ptr → List Ptr
pointer none = []
pointer (some p) = p ∷ []

abbrev pub status_pointers : StatusObject → List Ptr
status_pointers s =
    pointer s.start_time ++ (pointer s.termination_time ++ pointer s.conditions_array)

-- An object whose pointers are nil or at cells in use.
abbrev pub ObjectHolds : Heap → SessionObject → Type 0
ObjectHolds h o = StatusHolds h o.status × Holds security_cell h o.spec.debug_security

pointed-Extends :
    {A B : Type 0} (type : Cell → Option A) (kind : B → Cell) {h h' : Heap} (o : Option Ptr)
    → Extends h h'
    → Holds kind h o
    → pointed type h' o ≡ pointed type h o
pointed-Extends type kind {h} {h'} o e (inl n) =
    ap (pointed type h') n ∙ sym (ap (pointed type h) n)
pointed-Extends type kind {h} {h'} o e (inr (p, t, same, lt, at)) =
    ap (pointed type h') same ∙ ap (in_cell type) (e.keeps p lt) ∙ sym (ap (pointed type h) same)

pointed-IsCopy :
    {A : Type 0} (type : Cell → Option A) {h h' : Heap} (o o' : Option Ptr)
    → IsCopy h o h' o'
    → pointed type h' o' ≡ pointed type h o
pointed-IsCopy type {h} {h'} o o' (inl (n, n')) =
    ap (pointed type h') n' ∙ sym (ap (pointed type h) n)
pointed-IsCopy type {h} {h'} o o' (inr (p, q, c, same, copy, lt, at, at', new, used)) =
    ap (pointed type h') copy ∙ ap (in_cell type) (at' ∙ sym at) ∙ sym (ap (pointed type h) same)

view_of-parts :
    (m : ObjectMeta) (p : SpecObject) (s : StatusObject) {c c' : Option DebugSecurityContext}
    {a a' b b' : Option ℕ}
    → c ≡ c'
    → a ≡ a'
    → b ≡ b'
    → view_of m p c s a b ≡ view_of m p c' s a' b'
view_of-parts m p s c a b = cc (c, a, b)

-- What is done apart from the cells in use does not change what an object stands for.
view-Extends :
    {h h' : Heap} (o : SessionObject) → Extends h h' → ObjectHolds h o → view h' o ≡ view h o
view-Extends o e ((starts, ends, conds), security) =
    view_of-parts o.metadata o.spec o.status
      (pointed-Extends security_type security_cell o.spec.debug_security e security)
      (pointed-Extends time_type time_cell o.status.start_time e starts)
      (pointed-Extends time_type time_cell o.status.termination_time e ends)

view-SessionCopy :
    {h h' : Heap} (o o' : SessionObject)
    → Extends h h'
    → ObjectHolds h o
    → SessionCopy h o h' o'
    → view h' o' ≡ view h o
view-SessionCopy {h} {h'} o o' e (statuses, security) k =
    let t = k.statuses in
    let c = security_at h' o.spec.debug_security in
    let a = time_at h' o'.status.start_time in
    let b = time_at h' o'.status.termination_time in
    ap (λ m. view_of m o'.spec (security_at h' o'.spec.debug_security) o'.status a b) k.metadatas
    ∙ ap (λ p. view_of o.metadata p (security_at h' p.debug_security) o'.status a b) k.specs
    ∙ ap (λ s. view_of o.metadata o.spec c s a b) t.values
    ∙ view_of-parts o.metadata o.spec o.status
        (pointed-Extends security_type security_cell o.spec.debug_security e security)
        (pointed-IsCopy time_type o.status.start_time o'.status.start_time t.start_times)
        (pointed-IsCopy time_type o.status.termination_time o'.status.termination_time
          t.termination_times)

-- A write to a cell that was not in use.
write-new-Extends :
    {h h' : Heap} (q : Ptr) (c : Cell) → Extends h h' → h.next ≤ q → Extends h (write q c h')
write-new-Extends q c e new = record {
  grows = e.grows;
  keeps = λ p lt. ground (arith, e.keeps p lt);
}

-- The pointers of a copied status are at cells that were not in use.
IsCopy-new :
    {h h' : Heap} (o o' : Option Ptr) → IsCopy h o h' o' → All (λ q. h.next ≤ q) (pointer o')
IsCopy-new o o' (inl (n, n')) = rw n' tt
IsCopy-new o o' (inr (p, q, c, same, copy, lt, at, at', new, used)) = rw copy (new, tt)

StatusCopy-new :
    {h h' : Heap} (s s' : StatusObject)
    → StatusCopy h s h' s'
    → All (λ q. h.next ≤ q) (status_pointers s')
StatusCopy-new {h} s s' k =
    All-append (λ q. h.next ≤ q) (pointer s'.start_time) _
      (IsCopy-new s.start_time s'.start_time k.start_times)
      (All-append (λ q. h.next ≤ q) (pointer s'.termination_time) (pointer s'.conditions_array)
        (IsCopy-new s.termination_time s'.termination_time k.termination_times)
        (IsCopy-new s.conditions_array s'.conditions_array k.conditions_arrays))

-- Where the library copies as it documents, of an object whose pointers are nil or at cells in
-- use: the deep copy stands for the same session, and the original for the session that it stood
-- for, after the copy, and after a write of anything to the copy or to what the copy's status
-- points to.
pub session_deep_copy_object-view :
    (lib : Library) (h : Heap) (p : Ptr) (o : SessionObject) (c : Cell)
    → IsDocumented lib
    → h.cell p ≡ some (session_cell o)
    → ObjectHolds h o
    → (o' : SessionObject) × (h' : Heap) × (session_deep_copy_object lib (some p) h
        ≡ some (some (session_object h.next), h'))
      × (h'.cell h.next ≡ some (session_cell o'))
      × (view h' o' ≡ view h o)
      × (view h' o ≡ view h o)
      × All (λ q. view (write q c h') o ≡ view h o) (h.next ∷ status_pointers o'.status)
unfolding session_deep_copy_object
session_deep_copy_object-view lib h p o c documented at held =
    let (o', h', e, found, x, k) = session_deep_copy-SessionCopy lib documented h p o at held.0 in
    (
      o',
      h',
      bind-some (session_deep_copy lib (some p)) _ h (some h.next) h' e,
      found,
      view-SessionCopy o o' x held k,
      view-Extends o x held,
      All-implies (λ q. h.next ≤ q) _ (λ q new. view-Extends o (write-new-Extends q c x new) held)
          (h.next ∷ status_pointers o'.status)
          (omega arith, StatusCopy-new o.status o'.status k.statuses),
    )
