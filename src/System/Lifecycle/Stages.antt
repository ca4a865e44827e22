-- ===== src/System/Lifecycle/Stages.antt =====
-- One run at each stage of a session's life, where every call is answered.
use kube_debug_sess.Prelude.{
  ℕ, ◌≡◌, refl, ap, ◌∙◌, inl, inr, true, false, Bool-cases, String, none, some, List, [], ◌∷◌,
  arith,
}
use kube_debug_sess.Prelude.Int.{ℤ}
use kube_debug_sess.Api.{SessionPhase, phase_text, DebugSession}
use kube_debug_sess.Api.SessionPhase.{unset, pending, injecting, active, terminating, completed}
use kube_debug_sess.Kube.{ContainerStatus, LogStream, Node, NamespacedName, Pod, ok}
use kube_debug_sess.Cluster.{Env, History, got_pod, updated_status}
use kube_debug_sess.Updates.{KeepsStatus}
use kube_debug_sess.SessionPhases.Update.{
  with_namespace, with_phase, target_pod, debugger_name, update_session_status,
}
use kube_debug_sess.SessionPhases.Reason.{action_succeed, analyze_container_status}
use kube_debug_sess.Reconcilers.Containers.{is_ephemeral_container_present, find_status}
use kube_debug_sess.Reconcilers.Logs.{read_log}
use kube_debug_sess.Reconcilers.Pending
use kube_debug_sess.Reconcilers.Pending.Steps.{reconcile-validates}
use kube_debug_sess.Reconcilers.Injecting
use kube_debug_sess.Reconcilers.Injecting.{with_debugger}
use kube_debug_sess.Reconcilers.Injecting.Laws.{reconcile-injects}
use kube_debug_sess.Reconcilers.Active.{with_ready}
use kube_debug_sess.Reconcilers.Active.Laws.{observe-announces, observe-running}
use kube_debug_sess.Reconcilers.Active.Steps.{next_phase, reconcile-found, reconcile-stopped}
use kube_debug_sess.Reconcilers.Terminating.Laws.{reconcile-archives}
use kube_debug_sess.Controller.{reconciler_for, run_reconciler}
use kube_debug_sess.Controller.Runs.{persist}
use kube_debug_sess.System.Store.{stored, after, after-phase, stored-accepted}

-- A cluster that answers every call, with this pod wherever a pod is read.
pub record Answers (env : Env) (pod : Pod) : Type 0 where
  pub namespaces : (h : History) (name : String) → env.namespace h name ≡ ok tt
  pub pods : (h : History) (key : NamespacedName) → env.pod h key ≡ ok pod
  pub statuses : (h : History) (t : DebugSession) → env.status_answer h t ≡ ok t
  pub injections :
      (h : History) (ns name : String) (p : Pod) → env.ephemeral_answer h ns name p ≡ ok tt
  pub port : ℤ
  pub ports : List ℤ
  pub services : (h : History) (ns name : String) → env.service h ns name ≡ ok (port ∷ ports)
  pub node : Node
  pub nodes : List Node
  pub node_lists : (h : History) → env.nodes h ≡ ok (node ∷ nodes)
  pub source : ℕ → ℕ
  pub random : (h : History) (n : ℕ) → env.random h n ≡ ok source
  pub stream : LogStream
  pub logs : (h : History) (ns name container : String) → env.log h ns name container ≡ ok stream
  pub raw : List ℕ
  pub log_read : read_log stream [] ≡ ok raw
  pub objects : (h : History) (b k : String) (l : List ℕ) → env.object_answer h b k l ≡ ok tt

pub Answers-KeepsStatus : (env : Env) (pod : Pod) → Answers env pod → KeepsStatus env
Answers-KeepsStatus env pod a = record { kept = λ h s s' e. ground (arith, a.statuses h s) }

-- A run stores a session with the property.
abbrev pub Stores : Env → DebugSession → (DebugSession → Type 0) → Type 0
Stores env s P = (t : DebugSession) × (after env s ≡ persist s t) × P t

abbrev pub InPhase : SessionPhase → DebugSession → Type 0
InPhase p t = t.status.phase ≡ p

module _ (env : Env) (pod : Pod) (a : Answers env pod) (s : DebugSession) where
  stores_last :
      (p : SessionPhase) (t : DebugSession) (h : History)
      → s.status.phase ≡ p
      → (run_reconciler (reconciler_for env p) s []).1 ≡ updated_status t ∷ h
      → after env s ≡ persist s t
  stores_last p t h e q = after-phase env s p e ∙ stored-accepted env s t h _ q (a.statuses h t)

  stores :
      (p q : SessionPhase) {t : DebugSession} {h : History}
      → s.status.phase ≡ p
      → (run_reconciler (reconciler_for env p) s []).1 ≡ updated_status t ∷ h
      → t.status.phase ≡ q
      → Stores env s (InPhase q)
  stores p q {t} {h} e run phase = (t, stores_last p t h e run, phase)

  pub unset-Stores : s.status.phase ≡ unset → Stores env s (InPhase pending)
  unfolding run_reconciler reconciler_for phase_text Pending.reconcile
  unset-Stores e =
      let t = with_phase s pending "DebugSession created." in
      (t, stores_last unset t [] e (ground (arith, Pending.is_unset-unset)), refl)

  pub pending-Stores :
      (Pending.check_pod (with_namespace s) pod).1 ≡ none
      → s.status.phase ≡ pending
      → Stores env s (InPhase injecting)
  unfolding run_reconciler reconciler_for phase_text update_session_status
  pending-Stores valid e =
      let checked = (Pending.check_pod (with_namespace s) pod).0 in
      let t = with_phase checked injecting "Prerequisites validated successfully." in
      let run =
        reconcile-validates env s pod e (λ h. a.namespaces h _) (λ h. a.pods h _) checked
          (ap (λ o. (checked, o)) valid) in
      (t, stores_last pending t _ e (ap (λ x. x.1) run), refl)

  pub injecting-Stores :
      (s₁ : DebugSession)
      → Injecting.choose_container (with_namespace s) pod.containers ≡ some s₁
      → Injecting.shares_processes pod ≡ true
      → s.status.phase ≡ injecting
      → Stores env s (InPhase active)
  unfolding run_reconciler reconciler_for phase_text
  injecting-Stores s₁ chosen shared e =
      let run =
        reconcile-injects env s s₁ pod a.port a.ports a.node a.nodes a.source (λ h. a.pods h _)
          chosen shared (λ h. a.services h _ _) a.node_lists (λ h. a.random h 32) a.injections
          a.statuses in
      stores injecting active e (ap (λ x. x.1) run) refl

  module _ (c : ContainerStatus)
      (found : find_status pod.ephemeral_container_statuses (debugger_name s) ≡ some c)
      (watched : s.status.phase ≡ active) where
    -- Whether it is announced now or was before: the session is ready.
    pub active-Stores_running :
        c.running ≡ true
        → ((after env s).status.phase ≡ active) × ((after env s).status.ready_for_attach ≡ true)
    unfolding run_reconciler reconciler_for phase_text stored
    active-Stores_running running =
        let u : DebugSession = with_debugger (with_namespace s) in
        let h : History = got_pod (target_pod (with_namespace s)) ∷ [] in
        let found_run = ap (λ x. x.1) (reconcile-found env s pod c (a.pods [] _) found) in
        elim (Bool-cases (s.status.ready_for_attach)) [
          | inl ready ↦
              let run = found_run ∙ ap (λ x. x.1) (observe-running env u h c running ready) in
              let same : after env s ≡ s =
                after-phase env s active watched ∙ ap (stored env s) run in
              rw same (watched, ready)
          | inr quiet ↦
              let run = found_run ∙ observe-announces env u h c running quiet in
              let e = stores_last active (with_ready u true) _ watched run in rw e (watched, refl)
        ]

    pub active-Stores_stopped :
        c.running ≡ false
        → (analyze_container_status c).0 ≡ action_succeed
        → Stores env s (InPhase terminating)
    unfolding run_reconciler reconciler_for phase_text next_phase
    active-Stores_stopped stopped verdict =
        let (t, run, phase, quiet) =
          reconcile-stopped env s pod c (a.pods [] _) found stopped (λ e. cc (verdict, e)) in
        stores active terminating watched run (phase ∙ ap next_phase verdict)

  pub terminating-Stores :
      is_ephemeral_container_present pod.ephemeral_containers (debugger_name s) ≡ true
      → s.status.phase ≡ terminating
      → Stores env s (InPhase completed)
  unfolding run_reconciler reconciler_for phase_text
  terminating-Stores present e =
      let run =
        reconcile-archives env s pod a.stream a.raw (λ h. a.pods h _) present (λ h. a.logs h _ _ _)
          a.log_read a.objects a.statuses in
      stores terminating completed e (ap (λ x. x.1) run) refl
