-- ===== src/Controller/Requests.antt =====
-- Which sessions are reconciled when a pod changes.
use kube_debug_sess.Prelude.{◌≡◌, refl, ◌↔◌, String, ◌<>◌, List, [], ◌∷◌, map, some}
use mathlib.Core.Path.{subst}
use mathlib.Core.List.{Memᴰ}
use kube_debug_sess.Api.{DebugSession}
use kube_debug_sess.Kube.{NamespacedName, ok}
use kube_debug_sess.Cluster.{Env, History}
use kube_debug_sess.Controller.{index_key, request_of, find_sessions_for_pod}

mem_map :
    (l : List DebugSession) (r : NamespacedName)
    → Memᴰ r (map request_of l) ↔ ((s : DebugSession) × Memᴰ s l × (r ≡ request_of s))
mem_map [] r = (λ m. elim m [ ], λ (s, m, e). elim m [ ])
mem_map (x ∷ xs) r = (
  elim [
    | Memᴰ.head e ↦ (x, Memᴰ.head refl, e)
    | Memᴰ.tail m ↦ let (s, m', e) = (mem_map xs r).0 m in (s, Memᴰ.tail m', e)
  ],
  λ (s, m, e). elim m [
    | Memᴰ.head q ↦ Memᴰ.head (subst (λ y. r ≡ request_of y) q e)
    | Memᴰ.tail m' ↦ Memᴰ.tail ((mem_map xs r).1 (s, m', e))
  ],
)

-- What the API server documents of a list by an index: it has the stored sessions with that key.
pub record Indexed (env : Env) (stored : List DebugSession) : Type 0 where
  pub by_key :
      (h : History) (key : String) (l : List DebugSession)
      → env.sessions h (some key) ≡ ok l
      → (s : DebugSession) → Memᴰ s l ↔ (Memᴰ s stored × (index_key s ≡ key))

-- Where the list by the index is answered, and has the stored sessions with the key: a change of a
-- pod asks for the reconciliation of exactly the stored sessions whose key is the pod's namespace
-- and name.
pub find_sessions_for_pod_iff :
    (env : Env) (stored l : List DebugSession) (h : History) (namespace name : String)
    (r : NamespacedName)
    → Indexed env stored
    → env.sessions h (some (namespace <> ("/" <> name))) ≡ ok l
    → Memᴰ r (find_sessions_for_pod env namespace name h).0 ↔ (
        (s : DebugSession) × Memᴰ s stored
        × (index_key s ≡ namespace <> ("/" <> name))
        × (r ≡ request_of s))
unfolding find_sessions_for_pod
find_sessions_for_pod_iff env stored l h namespace name r indexed answer = rw answer (
  λ m.
      let (s, m', e) = (mem_map l r).0 m in
      let (kept, key) = (indexed.by_key h _ l answer s).0 m' in (s, kept, key, e),
  λ (s, kept, key, e). (mem_map l r).1 (s, (indexed.by_key h _ l answer s).1 (kept, key), e),
)
