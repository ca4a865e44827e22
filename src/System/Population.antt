-- ===== src/System/Population.antt =====
-- All sessions of a cluster at once: users create, edit and delete them, the controller reconciles
-- any of them at any time, and the proxy lists what is there.
pub mod Laws
use kube_debug_sess.Prelude.{◌≢◌, List, [], ◌∷◌, All}
use mathlib.Core.List.{Memᴰ}
use kube_debug_sess.Api.{DebugSessionSpec, DebugSession}
use kube_debug_sess.Cluster.{updated_status, Env}
use kube_debug_sess.Updates.{KeepsStatus}
use kube_debug_sess.Controller.{reconcile_session}
use kube_debug_sess.Controller.Runs.{persist}
use kube_debug_sess.System.Attach.{IsCreated}

-- `Inserted s l l'`: the list with the session at one of its places.
pub data Inserted (s : DebugSession) : List DebugSession → List DebugSession → Type 0 where
  first : {l : List DebugSession} → Inserted s l (s ∷ l)
  later :
      {x : DebugSession} {l l' : List DebugSession} → Inserted s l l' → Inserted s (x ∷ l) (x ∷ l')

-- What may happen to the sessions that the API server holds. It gives each a UID that no other has.
pub data Changes : List DebugSession → List DebugSession → Type 0 where
  creates :
      {l l' : List DebugSession} (s : DebugSession)
      → IsCreated s
      → All (λ t. t.uid ≢ s.uid) l
      → Inserted s l l'
      → Changes l l'
  edits :
      {l l' l'' : List DebugSession} (s : DebugSession) (spec : DebugSessionSpec)
      → Inserted s l l'
      → Inserted (record s { spec = spec }) l l''
      → Changes l' l''
  removes : {l l' : List DebugSession} (s : DebugSession) → Inserted s l l' → Changes l' l
  reconciles :
      {l l' l'' : List DebugSession} (env : Env) (s t : DebugSession)
      → KeepsStatus env
      → Memᴰ (updated_status t) (reconcile_session env s []).1
      → Inserted s l l'
      → Inserted (persist s t) l l''
      → Changes l' l''

-- The populations that changes lead to, from none.
pub data Reached : List DebugSession → Type 0 where
  empty : Reached []
  changed : {l l' : List DebugSession} → Reached l → Changes l l' → Reached l'
