-- ===== src/System/Panics.antt =====
-- No run of the controller panics.
use kube_debug_sess.Prelude.{◌≡◌, ◌≢◌, refl, ap, ◌∙◌, ℕ, suc, ◌<◌, ◌^◌, false, [], arith}
use kube_debug_sess.Prelude.Int.{ℤ, pos, negsuc, leb_ℤ, wrap}
use kube_debug_sess.Api.{DebugSession}
use kube_debug_sess.Kube.{ok}
use kube_debug_sess.Cluster.{Env, History}
use kube_debug_sess.SessionPhases.Outcome.{Outcome, panicked}
use kube_debug_sess.SessionPhases.Update.{with_namespace}
use kube_debug_sess.Updates.{Updates-mem, KeepsStatus}
use kube_debug_sess.Reconcilers.Retrying.Backoff.{next_count, wait_duration}
use kube_debug_sess.Reconcilers.Retrying.Laws.{next_count-pos}
use kube_debug_sess.Reconcilers.Retrying.Wait.{wait_duration-some}
use kube_debug_sess.Controller.{reconcile_session}
use kube_debug_sess.Controller.Edits.{Good, MayRetry, IsKept, IsCalm}
use kube_debug_sess.Controller.Edits.Runs.{reconcile_session-Good}
use kube_debug_sess.Controller.Runs.{Run, start, step}

-- The maximum of a spec is an int32.
abbrev IsInt32 : ℤ → Type 0
IsInt32 z = wrap 32 z ≡ z

-- A count of retries that is not negative, of 31 bits.
abbrev pub IsCounted : DebugSession → Type 0
IsCounted s = (n : ℕ) × (s.status.retry_count ≡ pos n) × (n < 2 ^ 31)

-- A count that is not yet an int32's maximum leaves room for one more.
room_left :
    (z : ℤ) (n : ℕ) → IsInt32 z → n < 2 ^ 31 → leb_ℤ z (wrap 32 (pos n)) ≡ false → suc n < 2 ^ 31
room_left (pos m) n typed small left = ground arith
room_left (negsuc m) n typed small left = ground arith

IsCounted-answer :
    (env : Env)
    → KeepsStatus env
    → (h : History) (s s' : DebugSession) → env.status_answer h s ≡ ok s'
    → IsCounted s
    → IsCounted s'
IsCounted-answer env keeps h s s' e (n, c, small) =
    (n, ap (λ t. t.retry_count) (keeps.kept h s s' e) ∙ c, small)

IsCounted-IsKept : (env : Env) → KeepsStatus env → IsKept env IsCounted
IsCounted-IsKept env keeps = record {
  phases = λ s p m k. k;
  defaulted = λ s k. k;
  chosen = λ s c k. k;
  tokens = λ s t k. k;
  debuggers = λ s k. k;
  readiness = λ s b k. k;
  first_retry = λ s k. (1, refl, omega arith);
  no_retries = λ s k. (0, refl, omega arith);
  ends = λ s t k. k;
  completions = λ s k. k;
  answers = IsCounted-answer env keeps;
}

-- The outcome is no panic.
abbrev Returns : Outcome → Type 0
Returns o = o ≢ panicked

Returns-IsCalm : IsCalm Returns
Returns-IsCalm = record { quiet = λ r e. cc; loud = λ x e. cc }

module _ (s : DebugSession) (typed : IsInt32 s.spec.max_retry_count) (counted : IsCounted s) where
  IsCounted-MayRetry : MayRetry IsCounted Returns s
  IsCounted-MayRetry =
      let (n, c, small) = counted in
      record {
        retries = λ m e. (
          suc n,
          ap next_count c ∙ next_count-pos n (omega arith),
          room_left s.spec.max_retry_count n typed small (ground arith),
        );
        waits = λ e w.
            let (d, some_wait) = wait_duration-some n (omega arith) in
            absurd (
              cc (
                w,
                ap wait_duration (ap next_count c ∙ next_count-pos n (omega arith)) ∙ some_wait,
              ));
      }

module _ (env : Env) (keeps : KeepsStatus env) (s : DebugSession)
    (typed : IsInt32 s.spec.max_retry_count) (counted : IsCounted s) where
  run-Good : Good IsCounted Returns (reconcile_session env s [])
  run-Good =
      reconcile_session-Good env IsCounted (IsCounted-IsKept env keeps) Returns Returns-IsCalm s []
        (IsCounted-MayRetry (with_namespace s) typed counted) counted tt

-- A run changes no maximum, and keeps the count in its range.
Run-IsCounted :
    {s t : DebugSession}
    → IsInt32 s.spec.max_retry_count
    → IsCounted s
    → Run s t
    → IsInt32 t.spec.max_retry_count × IsCounted t
Run-IsCounted typed counted start = (typed, counted)
Run-IsCounted {s} typed counted (step env {t = t} keeps m r) =
    Run-IsCounted typed (Updates-mem IsCounted t _ (run-Good env keeps s typed counted).1 m) r

-- From a session whose maximum of retries is an int32 and whose count of them is of 31 bits and not
-- negative, through any number of runs, each with its own surroundings in which status updates keep
-- the status: the next run returns a result or an error, and does not panic, though `handleRetry`
-- shifts by a count that it reads.
pub Run-returns :
    {s t : DebugSession} (env : Env)
    → KeepsStatus env
    → IsInt32 s.spec.max_retry_count
    → IsCounted s
    → Run s t
    → (reconcile_session env t []).0 ≢ panicked
Run-returns {t = t} env keeps typed counted r =
    let (typed', counted') = Run-IsCounted typed counted r in
    (run-Good env keeps t typed' counted').0
