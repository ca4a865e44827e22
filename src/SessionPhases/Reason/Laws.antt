-- ===== src/SessionPhases/Reason/Laws.antt =====
-- The verdict on a container's status, as conditions on the status.
use kube_debug_sess.Prelude.{
  ◌≡◌, refl, sym, ap, All, All-mem, ◌≢◌, ◌↔◌, String, Bool, true, false, Option, none, some, List,
  [], ◌∷◌, ◌⊎◌, inl, inr, arith, eq_iff, ◌==s◌, if◌then◌else◌, Bool-cases,
}
use mathlib.Core.Path.{subst}
use mathlib.Core.Option.{some-injective}
use mathlib.Core.List.{Memᴰ}
use kube_debug_sess.Kube.{ContainerStatus}
use kube_debug_sess.SessionPhases.Reason.{
  action_wait, action_retry, action_fail, action_succeed, analyze_waiting, analyze_terminated,
  analyze_container_status,
}

-- The reasons of a waiting container after which the code tries again.
abbrev retry_reasons : List String
retry_reasons =
    "ImagePullBackOff" ∷ "RegistryUnavailable" ∷ "CrashLoopBackOff" ∷ "CreateContainerError"
    ∷ "RunContainerError" ∷ "NetworkPluginNotReady" ∷ []

abbrev one_of : List String → String → Bool
one_of [] reason = false
one_of (r ∷ rs) reason = if r ==s reason then true else one_of rs reason

one_of-mem : (l : List String) (reason : String) → one_of l reason ≡ true → Memᴰ reason l
one_of-mem [] reason h = cc
one_of-mem (r ∷ rs) reason h = elim (Bool-cases (r ==s reason)) [
  | inl e ↦ Memᴰ.head (sym ((eq_iff r reason).0 e))
  | inr e ↦ Memᴰ.tail (one_of-mem rs reason (rw e at h))
]

waiting_retry_cases :
    (reason : String)
    → (analyze_waiting reason).0 ≡ action_retry
    → one_of retry_reasons reason ≡ true
unfolding analyze_waiting
waiting_retry_cases reason h = ground arith

waiting_retry_table : All (λ r. (analyze_waiting r).0 ≡ action_retry) retry_reasons
unfolding analyze_waiting
waiting_retry_table = (refl, (refl, (refl, (refl, (refl, (refl, tt))))))

waiting_retry :
    (reason : String) → ((analyze_waiting reason).0 ≡ action_retry) ↔ Memᴰ reason retry_reasons
waiting_retry reason = (
  λ h. one_of-mem retry_reasons reason (waiting_retry_cases reason h),
  All-mem (λ r. (analyze_waiting r).0 ≡ action_retry) retry_reasons reason waiting_retry_table,
)

waiting_wait_cases :
    (reason : String)
    → (analyze_waiting reason).0 ≡ action_wait
    → ("ContainerCreating" ==s reason) ≡ true
unfolding analyze_waiting
waiting_wait_cases reason h = ground arith

waiting_wait_value : (analyze_waiting "ContainerCreating").0 ≡ action_wait
unfolding analyze_waiting
waiting_wait_value = refl

waiting-ne-succeed : (reason : String) → (analyze_waiting reason).0 ≢ action_succeed
unfolding analyze_waiting
waiting-ne-succeed reason = ground arith

terminated_cases :
    (reason : String)
    → ((analyze_terminated reason).0 ≡ action_fail)
      ⊎ (("Completed" ==s reason) ≡ true) × ((analyze_terminated reason).0 ≡ action_succeed)
unfolding analyze_terminated
terminated_cases reason = ground arith

terminated_value : (analyze_terminated "Completed").0 ≡ action_succeed
unfolding analyze_terminated
terminated_value = refl

-- When the code tries again: the container waits, not running, for one of the six reasons.
abbrev pub ShouldRetry : ContainerStatus → Type 0
ShouldRetry c = (c.running ≡ false) × (r : String) × (c.waiting ≡ some r) × Memᴰ r retry_reasons

-- When the session is over: the container has terminated with "Completed".
abbrev pub ShouldSucceed : ContainerStatus → Type 0
ShouldSucceed c = (c.running ≡ false) × (c.waiting ≡ none) × (c.terminated ≡ some "Completed")

-- When the code waits: the container runs, is being created, or has no state yet.
abbrev pub ShouldWait : ContainerStatus → Type 0
ShouldWait c =
    (c.running ≡ true)
    ⊎ ((c.waiting ≡ some "ContainerCreating") ⊎ (c.waiting ≡ none) × (c.terminated ≡ none))

-- The proofs go by the three parts of a container's state.
abbrev state : String → Bool → Option String → Option String → ContainerStatus
state name running waiting terminated = record {
  name = name;
  running = running;
  waiting = waiting;
  terminated = terminated;
}

retry_iff :
    (n : String) (running : Bool) (w t : Option String)
    → ((analyze_container_status (state n running w t)).0 ≡ action_retry)
      ↔ ShouldRetry (state n running w t)
unfolding analyze_container_status
retry_iff n true w t = (λ h. cc, λ h. cc)
retry_iff n false (some r) t = (
  λ h. (refl, r, refl, (waiting_retry r).0 h),
  λ (h₀, r', e, m).
      (waiting_retry r).1 (subst (λ x. Memᴰ x retry_reasons) (sym (some-injective r r' e)) m),
)
retry_iff n false none (some r) = (λ h. absurd (ground (arith, terminated_cases r)), λ h. cc)
retry_iff n false none none = (λ h. cc, λ h. cc)

succeed_iff :
    (n : String) (running : Bool) (w t : Option String)
    → ((analyze_container_status (state n running w t)).0 ≡ action_succeed)
      ↔ ShouldSucceed (state n running w t)
unfolding analyze_container_status
succeed_iff n true w t = (λ h. cc, λ h. cc)
succeed_iff n false (some r) t = (λ h. absurd (waiting-ne-succeed r h), λ h. cc)
succeed_iff n false none (some r) = (
  λ h. ground (arith, terminated_cases r, eq_iff "Completed" r),
  λ (h₀, h₁, e).
      subst (λ x. (analyze_terminated x).0 ≡ action_succeed) (sym (some-injective r "Completed" e))
        terminated_value,
)
succeed_iff n false none none = (λ h. cc, λ h. cc)

wait_iff :
    (n : String) (running : Bool) (w t : Option String)
    → ((analyze_container_status (state n running w t)).0 ≡ action_wait)
      ↔ ShouldWait (state n running w t)
unfolding analyze_container_status
wait_iff n true w t = (λ h. inl refl, λ h. refl)
wait_iff n false (some r) t = (
  λ h. inr (inl (ap some (sym ((eq_iff "ContainerCreating" r).0 (waiting_wait_cases r h))))),
  elim [
    | inl x ↦ cc
    | inr (inl e) ↦
        subst (λ x. (analyze_waiting x).0 ≡ action_wait)
          (sym (some-injective r "ContainerCreating" e)) waiting_wait_value
    | inr (inr q) ↦ absurd (cc q.0)
  ],
)
wait_iff n false none (some r) =
    (λ h. absurd (ground (arith, terminated_cases r)), λ h. ground arith)
wait_iff n false none none = (λ h. inr (inr (refl, refl)), λ h. refl)

-- The verdict on a container's status: to retry exactly where it waits, not running, for one of six
-- reasons; to succeed exactly where it has terminated with "Completed"; to wait exactly where it
-- runs, is being created or has no state yet; and so to fail in all other cases.
pub analyze_container_status_iff :
    (c : ContainerStatus)
    → (((analyze_container_status c).0 ≡ action_retry) ↔ ShouldRetry c)
      × (((analyze_container_status c).0 ≡ action_succeed) ↔ ShouldSucceed c)
      × (((analyze_container_status c).0 ≡ action_wait) ↔ ShouldWait c)
analyze_container_status_iff c = (
  retry_iff c.name c.running c.waiting c.terminated,
  succeed_iff c.name c.running c.waiting c.terminated,
  wait_iff c.name c.running c.waiting c.terminated,
)
