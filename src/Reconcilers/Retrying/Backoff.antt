-- ===== src/Reconcilers/Retrying/Backoff.antt =====
-- The arithmetic of `handleRetry` in
-- internal/controller/session_phases/reconcilers/retrying_reconciler.go. An int and a
-- `time.Duration` have 64 bits and wrap around.
use kube_debug_sess.Prelude.{◌^◌, Option, none, some, ltb, if◌then◌else◌}
use kube_debug_sess.Prelude.Int.{ℤ, pos, negsuc, ◌+ℤ◌, ◌-ℤ◌, ◌*ℤ◌, ltb_ℤ, wrap}
use kube_debug_sess.SessionPhases.Outcome.{Duration, seconds}

-- `RetryCount++`
unfoldable pub next_count : ℤ → ℤ
next_count c = wrap 64 (c +ℤ pos 1)

-- `1 << k` as an integer of 64 bits, where `none` is the panic on a negative count.
unfoldable pub shift_one : ℤ → Option ℤ
shift_one (pos k) = some (if ltb k 64 then wrap 64 (pos (2 ^ k)) else pos 0)
shift_one (negsuc k) = none

-- `if waitDuration > time.Minute { waitDuration = time.Minute }`
abbrev at_most_minute : Duration → Duration
at_most_minute d = if ltb_ℤ (seconds 60) d then seconds 60 else d

-- From the shift on.
unfoldable pub wait_for_factor : Option ℤ → Option Duration
wait_for_factor none = none
wait_for_factor (some factor) = some (at_most_minute (wrap 64 (seconds 5 *ℤ factor)))

-- The wait for a count that has been incremented.
unfoldable pub wait_duration : ℤ → Option Duration
unfolding wait_for_factor
wait_duration count = wait_for_factor (shift_one (wrap 64 (count -ℤ pos 1)))
