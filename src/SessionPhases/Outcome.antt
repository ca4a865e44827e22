-- ===== src/SessionPhases/Outcome.antt =====
-- internal/controller/session_phases/errors.go, and what a call of `Reconcile` returns.
-- A `time.Duration` is an integer of 64 bits that counts nanoseconds.
use kube_debug_sess.Prelude.{ℕ, String, ◌*◌}
use kube_debug_sess.Prelude.Int.{ℤ, pos}

abbrev pub Duration : Type 0
Duration = ℤ

abbrev pub seconds : ℕ → Duration
seconds n = pos (n * 1_000_000_000)

-- An error: a `RequeueError` or any other, by its text.
pub data GoError : Type 0 where
  plain : String → GoError
  requeue_error : String → Duration → GoError

-- The method `Error`.
abbrev pub error_text : GoError → String
error_text (plain text) = text
error_text (requeue_error reason after) = reason

-- ctrl.Result
pub record ReconcileResult : Type 0 where
  pub requeue_after : Duration

-- `panicked` is a run-time panic of the handler.
pub data Outcome : Type 0 where
  finished : ReconcileResult → Outcome
  errored : GoError → Outcome
  panicked : Outcome

-- `ctrl.Result{}, nil`
abbrev pub finish : Outcome
finish = finished (record { requeue_after = pos 0 })

abbrev pub requeue : Duration → Outcome
requeue d = finished (record { requeue_after = d })
