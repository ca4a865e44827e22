-- ===== src/Reconcilers/Pending/Laws.antt =====
-- When a session passes the validation.
use kube_debug_sess.Prelude.{
  ◌≡◌, sym, ◌≢◌, ◌↔◌, inl, inr, String, true, Option, none, some, List, [], ◌∷◌, arith, eq_iff,
  ◌==s◌, Bool-cases, Option-cases, if◌then◌else◌,
}
use mathlib.Core.List.{Memᴰ}
use kube_debug_sess.Api.{DebugSession}
use kube_debug_sess.Kube.{Pod}
use kube_debug_sess.SessionPhases.Update.{with_container}
use kube_debug_sess.Reconcilers.Containers.{find_container}
use kube_debug_sess.Reconcilers.Pending.{check_pod, pod_running}

find_container_iff :
    (l : List String) (name : String) → (find_container l name ≡ true) ↔ Memᴰ name l
unfolding find_container
find_container_iff [] name = (λ h. absurd (cc h), λ m. elim m [ ])
find_container_iff (c ∷ cs) name = (
  λ h. elim (Bool-cases (c ==s name)) [
    | inl e ↦ Memᴰ.head (sym ((eq_iff c name).0 e))
    | inr e ↦ Memᴰ.tail ((find_container_iff cs name).0 (rw e at h))
  ],
  elim [
    | Memᴰ.head e ↦ rw ((eq_iff c name).1 (sym e))
    | Memᴰ.tail m ↦ ground (arith, (find_container_iff cs name).1 m)
  ],
)

-- The container that a session means: the one it names, or the pod's first.
pub chosen_container : DebugSession → Pod → Option String
chosen_container s pod = elim (pod.containers) [
  | [] ↦ if s.spec.target_container_name ==s "" then none else some s.spec.target_container_name
  | c ∷ cs ↦ some (if s.spec.target_container_name ==s "" then c else s.spec.target_container_name)
]

check_pod_no_container :
    (s : DebugSession) (pod : Pod) → chosen_container s pod ≡ none → (check_pod s pod).1 ≢ none
unfolding check_pod chosen_container
check_pod_no_container s pod e = ground arith

check_pod_container :
    (s : DebugSession) (pod : Pod) (c : String)
    → chosen_container s pod ≡ some c
    → ((check_pod s pod).1 ≡ none)
      ↔ (((pod.phase ==s pod_running) ≡ true) × (find_container pod.containers c ≡ true))
unfolding check_pod chosen_container
check_pod_container s pod c e = (λ h. ground arith, λ h. ground arith)

check_pod_session :
    (s : DebugSession) (pod : Pod) (c : String)
    → chosen_container s pod ≡ some c
    → (check_pod s pod).1 ≡ none
    → (check_pod s pod).0 ≡ with_container s c
unfolding check_pod chosen_container
check_pod_session s pod c e h = ground arith

-- The pod passes exactly when it runs and has the container that the session means, the one it
-- names or else the pod's first, and the session is left with the name of that container.
pub check_pod_iff :
    (s : DebugSession) (pod : Pod)
    → ((check_pod s pod).1 ≡ none) ↔ (
        (pod.phase ≡ pod_running)
        × (c : String) × (chosen_container s pod ≡ some c)
        × Memᴰ c pod.containers
        × ((check_pod s pod).0 ≡ with_container s c))
check_pod_iff s pod = (
  λ h. elim (Option-cases (chosen_container s pod)) [
    | inl e ↦ absurd (check_pod_no_container s pod e h)
    | inr (c, e) ↦
        let (running, found) = (check_pod_container s pod c e).0 h in
        (
          (eq_iff _ _).0 running,
          c,
          e,
          (find_container_iff _ _).0 found,
          check_pod_session s pod c e h,
        )
  ],
  λ (running, c, e, m, same).
      (check_pod_container s pod c e).1
        ((eq_iff pod.phase pod_running).1 running, (find_container_iff _ _).1 m),
)
