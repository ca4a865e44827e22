-- ===== src/Controller/Edits.antt =====
-- A property that each edit of a session by a reconciler keeps holds of every session that a run
-- stores.
pub mod Checking
pub mod Watching
pub mod Adding
pub mod Runs
use kube_debug_sess.Prelude.{◌≡◌, inl, inr, String, ℕ, Bool, Option, none, false, arith}
use kube_debug_sess.Prelude.Int.{pos}
use kube_debug_sess.Api.{SessionPhase, DebugSession}
use kube_debug_sess.Kube.{Fallible-cases, ok}
use kube_debug_sess.Cluster.{Env, History}
use kube_debug_sess.SessionPhases.Outcome.{
  GoError, Outcome, ReconcileResult, finished, errored, panicked,
}
use kube_debug_sess.SessionPhases.Update.{
  with_namespace, with_phase, with_container, update_session_status,
}
use kube_debug_sess.Updates.{Updates}
use kube_debug_sess.Reconcilers.Pending
use kube_debug_sess.Reconcilers.NodeInfo
use kube_debug_sess.Reconcilers.Injecting
use kube_debug_sess.Reconcilers.Injecting.{with_token, with_debugger}
use kube_debug_sess.Reconcilers.Injecting.Token
use kube_debug_sess.Reconcilers.Webhook
use kube_debug_sess.Reconcilers.Active
use kube_debug_sess.Reconcilers.Active.{with_ready}
use kube_debug_sess.Reconcilers.Retrying
use kube_debug_sess.Reconcilers.Retrying.Backoff.{next_count, wait_duration}
use kube_debug_sess.Reconcilers.Retrying.{is_exhausted, with_retry}
use kube_debug_sess.Reconcilers.Terminating
use kube_debug_sess.Reconcilers.Terminating.{with_termination_time}
use kube_debug_sess.Reconcilers.Completed
use kube_debug_sess.Reconcilers.Completed.{with_completed_message}
use kube_debug_sess.Reconcilers.Failed

-- The edits that the reconcilers make, and what the server answers to an update.
pub record IsKept (env : Env) (P : DebugSession → Type 0) : Type 0 where
  pub phases : (s : DebugSession) (p : SessionPhase) (m : String) → P s → P (with_phase s p m)
  pub defaulted : (s : DebugSession) → P s → P (with_namespace s)
  pub chosen : (s : DebugSession) (c : String) → P s → P (with_container s c)
  pub tokens : (s : DebugSession) (t : String) → P s → P (with_token s t)
  pub debuggers : (s : DebugSession) → P s → P (with_debugger s)
  pub readiness : (s : DebugSession) (b : Bool) → P s → P (with_ready s b)
  pub first_retry :
      (s : DebugSession) → P s → P (record s { status = record (s.status) { retry_count = pos 1 } })
  pub no_retries :
      (s : DebugSession) → P s → P (record s { status = record (s.status) { retry_count = pos 0 } })
  pub ends : (s : DebugSession) (t : ℕ) → P s → P (with_termination_time s t)
  pub completions : (s : DebugSession) → P s → P (with_completed_message s)
  pub answers : (h : History) (s s' : DebugSession) → env.status_answer h s ≡ ok s' → P s → P s'

-- What a retry of a session makes: the session with one more counted, and no panic but with `Q`.
pub record MayRetry (P : DebugSession → Type 0) (Q : Outcome → Type 0) (s : DebugSession)
    : Type 0 where
  pub retries : (m : String) → is_exhausted s ≡ false → P (with_retry s m)
  pub waits :
      is_exhausted s ≡ false → wait_duration (next_count s.status.retry_count) ≡ none → Q panicked

-- An outcome, and a session with what is left of the run, each with the history after it.
abbrev pub Good : (DebugSession → Type 0) → (Outcome → Type 0) → Outcome × History → Type 0
Good P Q (o, h) = Q o × Updates P h

abbrev pub Edited : (DebugSession → Type 0) → (DebugSession × Option GoError) × History → Type 0
Edited P ((s, o), h) = P s × Updates P h

-- An outcome that is no panic.
pub record IsCalm (Q : Outcome → Type 0) : Type 0 where
  pub quiet : (r : ReconcileResult) → Q (finished r)
  pub loud : (e : GoError) → Q (errored e)

module _ (env : Env) (P : DebugSession → Type 0) (k : IsKept env P) (Q : Outcome → Type 0)
    (calm : IsCalm Q) where
  pub status :
      (s : DebugSession) (new_phase : SessionPhase) (message : String) (h : History)
      → P s
      → Updates P h
      → Good P Q (update_session_status env s new_phase message h)
  unfolding update_session_status
  status s new_phase message h p up =
      let q = k.phases s new_phase message p in
      elim (Fallible-cases (env.status_answer h (with_phase s new_phase message))) [
        | inl (s', e) ↦ rw e (calm.quiet _, (q, up))
        | inr (x, e) ↦ rw e (calm.loud _, (q, up))
      ]
