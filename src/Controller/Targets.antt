-- ===== src/Controller/Targets.antt =====
-- The key of the index tells the target pods of sessions apart.
use kube_debug_sess.Prelude.{
  ◌≡◌, ◌↔◌, ap, String, ◌<>◌, ◌==s◌, if◌then◌else◌, List, some, All, All-mem,
}
use kube_debug_sess.Prelude.Texts.{Lacks, slash-joined}
use mathlib.Core.List.{Memᴰ}
use kube_debug_sess.Api.{DebugSession}
use kube_debug_sess.Kube.{NamespacedName, ok}
use kube_debug_sess.Cluster.{Env, History}
use kube_debug_sess.SessionPhases.Update.{with_namespace, target_pod}
use kube_debug_sess.Controller.{index_key, request_of, find_sessions_for_pod}
use kube_debug_sess.Controller.Requests.{Indexed, find_sessions_for_pod_iff}

-- No character of a text is a slash, as in the names of namespaces.
abbrev pub HasNoSlash : String → Type 0
HasNoSlash s = Lacks b'/' s

abbrev target_namespace_of : DebugSession → String
target_namespace_of s = (with_namespace s).spec.target_namespace

index_key-target :
    (s : DebugSession) (pod : NamespacedName)
    → HasNoSlash (target_namespace_of s)
    → HasNoSlash pod.namespace
    → (index_key s ≡ pod.namespace <> ("/" <> pod.name)) ↔ (target_pod (with_namespace s) ≡ pod)
unfolding index_key
index_key-target s pod plain plain' = (
  λ e.
      let (ns, name) =
        slash-joined (target_namespace_of s) pod.namespace _ pod.name plain plain' e in
      cc (ns, name),
  λ e. ap (λ (p : NamespacedName). p.namespace <> ("/" <> p.name)) e,
)

-- Where the list by the index is answered, and has the stored sessions with the key, and no
-- namespace has a slash in its name: a change of a pod asks for the reconciliation of exactly the
-- stored sessions whose target is this pod, in their own namespace where they name none, each by
-- its own name and namespace.
pub find_sessions_for_pod_targets :
    (env : Env) (stored l : List DebugSession) (h : History) (pod r : NamespacedName)
    → Indexed env stored
    → env.sessions h (some (pod.namespace <> ("/" <> pod.name))) ≡ ok l
    → All (λ s. HasNoSlash (with_namespace s).spec.target_namespace) stored
    → HasNoSlash pod.namespace
    → Memᴰ r (find_sessions_for_pod env pod.namespace pod.name h).0 ↔ (
        (s : DebugSession) × Memᴰ s stored
        × ((if s.spec.target_namespace ==s "" then s.namespace else s.spec.target_namespace)
            ≡ pod.namespace)
        × (s.spec.target_pod_name ≡ pod.name)
        × (r.name ≡ s.name)
        × (r.namespace ≡ s.namespace))
find_sessions_for_pod_targets env stored l h pod r indexed answer plain plain' =
    let iff = find_sessions_for_pod_iff env stored l h pod.namespace pod.name r indexed answer in
    let targets : (s : DebugSession)
        → Memᴰ s stored
        → (index_key s ≡ pod.namespace <> ("/" <> pod.name))
          ↔ (target_pod (with_namespace s) ≡ pod) =
      λ s m.
        index_key-target s pod (All-mem (λ s. HasNoSlash (target_namespace_of s)) stored s plain m)
          plain' in
    (
      λ m.
          let (s, kept, key, e) = iff.0 m in
          let target = (targets s kept).0 key in
          (
            s,
            kept,
            ap (λ (p : NamespacedName). p.namespace) target,
            ap (λ (p : NamespacedName). p.name) target,
            ap (λ (p : NamespacedName). p.name) e,
            ap (λ (p : NamespacedName). p.namespace) e,
          ),
      λ (s, kept, ns, name, e, f).
          let target : target_pod (with_namespace s) ≡ pod = cc (ns, name) in
          let same : r ≡ request_of s = cc (e, f) in
          iff.1 (s, kept, (targets s kept).1 target, same),
    )
