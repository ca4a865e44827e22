-- ===== src/System/Lifecycle.antt =====
-- A session in a cluster that answers, from its creation to its completion.
pub mod Stages
pub mod Tokens
use kube_debug_sess.Prelude.{
  ◌≡◌, refl, sym, ap, ◌∙◌, ◌==s◌, ◌<>◌, Bool-cases, inl, inr, String, true, false, none, some, List,
  [], ◌∷◌, arith,
}
use mathlib.Core.Path.{subst}
use mathlib.Core.List.{Memᴰ}
use kube_debug_sess.Api.{SessionPhase, DebugSession}
use kube_debug_sess.Api.SessionPhase.{unset, pending, injecting, active, terminating, completed}
use kube_debug_sess.Kube.{ContainerStatus, Pod}
use kube_debug_sess.Cluster.{Env}
use kube_debug_sess.SessionPhases.Update.{with_namespace, with_container, debugger_name}
use kube_debug_sess.SessionPhases.Reason.{action_succeed, analyze_container_status}
use kube_debug_sess.Reconcilers.Containers.{is_ephemeral_container_present, find_status}
use kube_debug_sess.Reconcilers.Pending.{check_pod}
use kube_debug_sess.Reconcilers.Pending.Laws.{check_pod_iff}
use kube_debug_sess.Reconcilers.Injecting.{choose_container, shares_processes}
use kube_debug_sess.Reconcilers.Injecting.Hex.{IsDrawn}
use kube_debug_sess.Controller.Runs.{persist, Run, start, step}
use kube_debug_sess.Updates.{KeepsStatus}
use kube_debug_sess.System.Attach.{IsCreated}
use kube_debug_sess.System.Store.{after, after-persist, Run-after}
use kube_debug_sess.System.Lifecycle.Tokens.{after_three_token, after_active-token}
use kube_debug_sess.System.Lifecycle.Stages.{
  Answers, Answers-KeepsStatus, Stores, InPhase, unset-Stores, pending-Stores, injecting-Stores,
  active-Stores_running, active-Stores_stopped, terminating-Stores,
}

-- What a run leaves alone decides as before.
check_pod-persist :
    (s t : DebugSession) (pod : Pod)
    → (check_pod (with_namespace s) pod).1 ≡ none
    → (check_pod (with_namespace (persist s t)) pod).1 ≡ none
unfolding check_pod
check_pod-persist s t pod e = ground arith

chooses :
    (s : DebugSession) (name : String) (l : List String)
    → Memᴰ name l
    → (s₁ : DebugSession) × (choose_container s l ≡ some s₁)
chooses s name [] m = elim m [ ]
chooses s name (c ∷ cs) m = elim (Bool-cases (s.spec.target_container_name ==s "")) [
  | inl e ↦ (with_container s c, rw e refl)
  | inr e ↦ (s, rw e refl)
]

Stores-phase :
    (env : Env) (s : DebugSession) (p : SessionPhase)
    → Stores env s (InPhase p)
    → (after env s).status.phase ≡ p
Stores-phase env s p (t, e, phase) = ap (λ x. x.status.phase) e ∙ phase

-- The target of a session is fit for a debugger.
pub record IsFit (s : DebugSession) (pod : Pod) : Type 0 where
  pub valid : (check_pod (with_namespace s) pod).1 ≡ none
  pub shared : shares_processes pod ≡ true

IsFit-after : (env : Env) (s : DebugSession) (pod : Pod) → IsFit s pod → IsFit (after env s) pod
IsFit-after env s pod fit = record {
  valid =
      subst (λ x. (check_pod (with_namespace x) pod).1 ≡ none) (sym (after-persist env s))
        (check_pod-persist s (after env s) pod fit.valid);
  shared = fit.shared;
}

injected :
    (env : Env) (pod : Pod) (s : DebugSession)
    → Answers env pod
    → IsFit s pod
    → s.status.phase ≡ injecting
    → (after env s).status.phase ≡ active
injected env pod s a fit e =
    let (running, c, chosen, m, same) = (check_pod_iff (with_namespace s) pod).0 fit.valid in
    let (s₁, choice) = chooses (with_namespace s) c pod.containers m in
    Stores-phase env s active (injecting-Stores env pod a s s₁ choice fit.shared e)

-- The first three runs of a session, in a cluster that answers: from its creation to Active.
abbrev pub after_three : Env → DebugSession → DebugSession
after_three env s = after env (after env (after env s))

after_three-active :
    (env : Env) (pod : Pod) (s : DebugSession)
    → Answers env pod
    → IsFit s pod
    → s.status.phase ≡ unset
    → (after_three env s).status.phase ≡ active
after_three-active env pod s a fit e =
    let s₁ : DebugSession = after env s in
    let e₁ = Stores-phase env s pending (unset-Stores env pod a s e) in
    let fit₁ = IsFit-after env s pod fit in
    let e₂ = Stores-phase env s₁ injecting (pending-Stores env pod a s₁ fit₁.valid e₁) in
    injected env pod (after env s₁) a (IsFit-after env s₁ pod fit₁) e₂

Run-after_last : {s t : DebugSession} (env : Env) → KeepsStatus env → Run s t → Run s (after env t)
Run-after_last {s} env keeps start = Run-after env s keeps
Run-after_last env keeps (step e k m r) = step e k m (Run-after_last env keeps r)

uid-after : (env : Env) (s : DebugSession) → (after env s).uid ≡ s.uid
uid-after env s = ap (λ x. x.uid) (after-persist env s)

uid-after_three : (env : Env) (s : DebugSession) → (after_three env s).uid ≡ s.uid
uid-after_three env s =
    uid-after env (after env (after env s)) ∙ uid-after env (after env s) ∙ uid-after env s

-- The session's UID after runs in two clusters.
pub uid-after_four :
    (env env' : Env) (s : DebugSession) → (after env' (after_three env s)).uid ≡ s.uid
uid-after_four env env' s = uid-after env' (after_three env s) ∙ uid-after_three env s

-- The debugger of a name in a pod: its status, and whether the pod lists it.
pub record Debugs (pod : Pod) (name : String) (c : ContainerStatus) : Type 0 where
  pub found : find_status pod.ephemeral_container_statuses name ≡ some c
  pub present : is_ephemeral_container_present pod.ephemeral_containers name ≡ true

-- A cluster in which the debugger is not there yet, then one in which it runs.
module _ (before during : Env) (pod running_pod : Pod) (s : DebugSession)
    (running : ContainerStatus) (a₀ : Answers before pod) (a₁ : Answers during running_pod)
    (created : IsCreated s) (fit : IsFit s pod) (d₁ : Debugs running_pod (debugger_name s) running)
    (runs : running.running ≡ true) where
  pub four_runs : Run s (after during (after_three before s))
  four_runs =
      let keeps = Answers-KeepsStatus before pod a₀ in
      Run-after_last during (Answers-KeepsStatus during running_pod a₁)
        (Run-after_last before keeps (Run-after_last before keeps (Run-after before s keeps)))

  pub after_four :
      let ready = after during (after_three before s) in
      (ready.status.phase ≡ active)
      × (ready.status.ready_for_attach ≡ true)
      × IsDrawn before ready.status.one_time_token
  after_four =
      let s₃ : DebugSession = after_three before s in
      let s₄ : DebugSession = after during s₃ in
      let name₃ = ap (λ u. "debugger-" <> u) (uid-after_three before s) in
      let found =
        subst (λ n. find_status running_pod.ephemeral_container_statuses n ≡ some running)
          (sym name₃) d₁.found in
      let (e₄, ready) =
        active-Stores_running during running_pod a₁ s₃ running found
          (after_three-active before pod s a₀ fit created.phase) runs in
      let active₃ = after_three-active before pod s a₀ fit created.phase in
      let keeps = Answers-KeepsStatus before pod a₀ in
      let drawn = after_three_token before keeps s created active₃ in
      let kept = after_active-token during (Answers-KeepsStatus during running_pod a₁) s₃ active₃ in
      (e₄, ready, subst (IsDrawn before) (sym kept) drawn)

-- Three clusters that a session meets one after the other, each of which answers every call: before
-- the debugger is there, while it runs, and when it has ended.
module _ (before during ended : Env) (pod running_pod ended_pod : Pod) (s : DebugSession)
    (running over : ContainerStatus) (a₀ : Answers before pod) (a₁ : Answers during running_pod)
    (a₂ : Answers ended ended_pod) where
  -- Where every call is answered: a created session whose target is fit for a debugger is Active
  -- after three runs; it is Active, ready, and has a token after one more in which its debugger
  -- runs, the hexadecimal text of 32 random bytes that the cluster of the first three runs gives
  -- when it is asked for them; and it is Completed after two more in which the debugger has stopped
  -- with the verdict of success.
  pub lifecycle :
      IsCreated s
      → IsFit s pod
      → Debugs running_pod (debugger_name s) running
      → running.running ≡ true
      → Debugs ended_pod (debugger_name s) over
      → over.running ≡ false
      → (analyze_container_status over).0 ≡ action_succeed
      → let watched = after_three before s in
        let ready = after during watched in
        (watched.status.phase ≡ active)
        × (ready.status.phase ≡ active)
        × (ready.status.ready_for_attach ≡ true)
        × IsDrawn before ready.status.one_time_token
        × ((after ended (after ended ready)).status.phase ≡ completed)
  lifecycle created fit d₁ runs d₂ stopped verdict =
      let s₄ : DebugSession = after during (after_three before s) in
      let s₅ : DebugSession = after ended s₄ in
      let (e₄, ready, token) =
        after_four before during pod running_pod s running a₀ a₁ created fit d₁ runs in
      let uid₄ = uid-after_four before during s in
      let name₄ = ap (λ u. "debugger-" <> u) uid₄ in
      let name₅ = ap (λ u. "debugger-" <> u) (uid-after ended s₄ ∙ uid₄) in
      let found =
        subst (λ n. find_status ended_pod.ephemeral_container_statuses n ≡ some over) (sym name₄)
          d₂.found in
      let e₅ =
        Stores-phase ended s₄ terminating
          (active-Stores_stopped ended ended_pod a₂ s₄ over found e₄ stopped verdict) in
      let present =
        subst (λ n. is_ephemeral_container_present ended_pod.ephemeral_containers n ≡ true)
          (sym name₅) d₂.present in
      let e₆ =
        Stores-phase ended s₅ completed (terminating-Stores ended ended_pod a₂ s₅ present e₅) in
      (after_three-active before pod s a₀ fit created.phase, e₄, ready, token, e₆)
