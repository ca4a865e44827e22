-- ===== src/Controller/Runs.antt =====
-- Reconciling again and again: each run of `Reconcile` meets its own surroundings, and the status
-- of any session that it stores may be the one that the next run reads.
use kube_debug_sess.Prelude.{All-mem}
use kube_debug_sess.Prelude.{◌≡◌, refl, String, none, [], ◌⊎◌, inl, inr, arith}
use mathlib.Core.Path.{subst}
use mathlib.Core.Logic.{◌≢◌}
use mathlib.Core.List.{Memᴰ}
use mathlib.Core.List.Memᴰ.{not-nil}
use kube_debug_sess.Api.{SessionPhase, phase_text, phase_of, DebugSession}
use kube_debug_sess.Api.SessionPhase.{
  unset, pending, injecting, active, retrying, terminating, completed, failed, other,
}
use kube_debug_sess.Cluster.{updated_status, History, Env}
use kube_debug_sess.Updates.{OnUpdate, Updates, KeepsStatus}
use kube_debug_sess.Controller.Diagram.{Follows, ◌⟶◌, ◌⟶*◌, create, complete, close, here, then}
use kube_debug_sess.Controller.Follows.{
  pending-Follows_unset, pending-Follows, injecting-Follows, active-Follows, retrying-Follows,
  terminating-Follows, completed-Follows,
}
use kube_debug_sess.Reconcilers.Failed
use kube_debug_sess.Controller.{reconciler_for, run_reconciler, reconcile_session}

-- The phase is one that a stored text stands for.
abbrev pub IsCanonical : SessionPhase → Type 0
IsCanonical p = phase_of (phase_text p) ≡ p

pub reconciler_for-other :
    (env : Env) (text : String)
    → phase_of text ≡ other text
    → reconciler_for env (other text) ≡ none
unfolding reconciler_for phase_of
reconciler_for-other env text c = ground arith

other-Follows :
    (env : Env) (s : DebugSession) (h : History) (text : String)
    → phase_of text ≡ other text
    → Updates (Follows (other text)) h
    → Updates (Follows (other text)) (run_reconciler (reconciler_for env (other text)) s h).1
unfolding run_reconciler
other-Follows env s h text c u = rw (reconciler_for-other env text c) u

module _ (env : Env) (keeps : KeepsStatus env) (s : DebugSession) (h : History) where
  -- By the phase, for the reconciler that is registered for it.
  run-Follows :
      (p : SessionPhase)
      → IsCanonical p
      → s.status.phase ≡ p
      → Updates (Follows p) h
      → Updates (Follows p) (run_reconciler (reconciler_for env p) s h).1
  unfolding run_reconciler reconciler_for Failed.reconcile phase_text
  run-Follows unset c e u = pending-Follows_unset env s h e u
  run-Follows pending c e u = pending-Follows env s h e u
  run-Follows injecting c e u = injecting-Follows env keeps s h e u
  run-Follows active c e u = active-Follows env s h e u
  run-Follows retrying c e u = retrying-Follows env s h e u
  run-Follows terminating c e u = terminating-Follows env keeps s h e u
  run-Follows completed c e u = completed-Follows env s h e u
  run-Follows failed c e u = u
  run-Follows (other text) c e u = other-Follows env s h text c u

-- Where a successful status update keeps the status that it is sent, and the session is read with a
-- phase that a stored text stands for: every session that a run of `Reconcile` stores, whatever
-- else its surroundings answer, has a phase that is next in the diagram to the one it was read
-- with.
pub reconcile_session-Follows :
    (env : Env) (s : DebugSession)
    → KeepsStatus env
    → IsCanonical s.status.phase
    → Updates (Follows s.status.phase) (reconcile_session env s []).1
unfolding reconcile_session
reconcile_session-Follows env s keeps c = run-Follows env keeps s [] s.status.phase c refl tt

-- What the next run reads: a status update stores the status alone.
abbrev pub persist : DebugSession → DebugSession → DebugSession
persist s t = record s { status = t.status }

-- Any number of runs, each with its own surroundings.
pub data Run : DebugSession → DebugSession → Type 0 where
  start : {s : DebugSession} → Run s s
  step :
      (env : Env) {s t u : DebugSession}
      → KeepsStatus env
      → Memᴰ (updated_status t) (reconcile_session env s []).1
      → Run (persist s t) u
      → Run s u

pub ⟶-IsCanonical : {p q : SessionPhase} → p ⟶ q → IsCanonical q
unfolding phase_of phase_text
⟶-IsCanonical create = refl
⟶-IsCanonical _ = refl

pub stored-Follows :
    (env : Env) (s t : DebugSession)
    → KeepsStatus env
    → IsCanonical s.status.phase
    → Memᴰ (updated_status t) (reconcile_session env s []).1
    → s.status.phase ⟶ t.status.phase
stored-Follows env s t keeps c m =
    All-mem (OnUpdate (Follows s.status.phase)) _ _ (reconcile_session-Follows env s keeps c) m

-- From a phase that a stored text stands for, any number of runs, each with its own surroundings in
-- which status updates keep the status, leads to a phase that the diagram leads to.
Run-⟶* :
    {s t : DebugSession} → IsCanonical s.status.phase → Run s t → s.status.phase ⟶* t.status.phase
Run-⟶* c start = here
Run-⟶* c (step env keeps m r) =
    let e = stored-Follows env _ _ keeps c m in then e (Run-⟶* (⟶-IsCanonical e) r)

failed_silent :
    (env : Env) (s : DebugSession) (p : SessionPhase)
    → p ≡ failed
    → (run_reconciler (reconciler_for env p) s []).1 ≡ []
unfolding run_reconciler reconciler_for Failed.reconcile phase_text
failed_silent env s p e = rw e

-- A failed session stays as it is, through any number of runs in any surroundings.
pub Run-failed : {s t : DebugSession} → s.status.phase ≡ failed → Run s t → t ≡ s
unfolding reconcile_session
Run-failed e start = refl
Run-failed {s} e (step env keeps m r) =
    absurd (not-nil (subst (Memᴰ _) (failed_silent env s s.status.phase e) m))

into_completed : {p q : SessionPhase} → p ⟶ q → q ≡ completed → (p ≡ terminating) ⊎ (p ≡ completed)
into_completed complete e = inl refl
into_completed close e = inr refl
into_completed _ e = cc

is_completed : (p : SessionPhase) → (p ≡ completed) ⊎ (p ≢ completed)
is_completed completed = inl refl
is_completed _ = inr (λ e. cc)

-- A session that was not completed, in a phase that a stored text stands for, and is completed
-- after some runs, each with its own surroundings in which status updates keep the status, was
-- terminating after some of them.
pub Run-completed :
    {s t : DebugSession}
    → IsCanonical s.status.phase
    → s.status.phase ≢ completed
    → t.status.phase ≡ completed
    → Run s t
    → (u : DebugSession) × Run s u × (u.status.phase ≡ terminating) × Run u t
Run-completed c n e start = absurd (n e)
Run-completed {s} c n e (step env {t = t'} keeps m r) =
    let edge = stored-Follows env s t' keeps c m in
    elim (is_completed t'.status.phase) [
      | inl done ↦ elim (into_completed edge done) [
        | inl p ↦ (s, start, p, step env keeps m r)
        | inr p ↦ absurd (n p)
      ]
      | inr more ↦
          let (u, before, p, after) = Run-completed (⟶-IsCanonical edge) more e r in
          (u, step env keeps m before, p, after)
    ]
