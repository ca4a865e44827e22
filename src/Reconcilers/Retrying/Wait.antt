-- ===== src/Reconcilers/Retrying/Wait.antt =====
-- The wait between two retries, against the series 5 s, 10 s, 20 s, 40 s, 60 s, 60 s ...
use kube_debug_sess.Prelude.{
  ℕ, zero, suc, ◌≡◌, refl, ◌+◌, ◌*◌, ◌-◌, ◌^◌, ◌≤◌, ◌<◌, Option, none, some, arith, ltb,
  if◌then◌else◌, Bool, true, false, ap, ◌∙◌, ◌==◌, ==_iff, ◌&&◌,
}
use native.Mathlib.Decide.{dec_lt}
use kube_debug_sess.Prelude.Int.{ℤ, pos, negsuc, wrap, ◌-ℤ◌}
use kube_debug_sess.SessionPhases.Outcome.{Duration, seconds}
use kube_debug_sess.Reconcilers.Retrying.Backoff.{shift_one, wait_for_factor, wait_duration}

-- The series, in seconds: doubled from 5, and never over a minute.
pub backoff_seconds : ℕ → ℕ
backoff_seconds zero = 5
backoff_seconds (suc n) = let twice = 2 * backoff_seconds n in if ltb 60 twice then 60 else twice

is_seconds : Option Duration → ℕ → Bool
is_seconds none n = false
is_seconds (some (negsuc d)) n = false
is_seconds (some (pos d)) n = d == n * 1_000_000_000

is_seconds-eq : (o : Option Duration) (n : ℕ) → is_seconds o n ≡ true → o ≡ some (seconds n)
unfolding is_seconds
is_seconds-eq none n h = cc
is_seconds-eq (some (negsuc d)) n h = cc
is_seconds-eq (some (pos d)) n h = ap (λ k. some (pos k)) ((==_iff d _).0 h)

-- The waits for k counts are those of a series in seconds, by evaluation.
waits_match : (ℕ → ℤ) → (ℕ → ℕ) → ℕ → Bool
waits_match count series zero = true
waits_match count series (suc k) =
    waits_match count series k && is_seconds (wait_duration (count k)) (series k)

waits_match-eq :
    (count : ℕ → ℤ) (series : ℕ → ℕ) (k n : ℕ)
    → waits_match count series k ≡ true
    → n < k
    → wait_duration (count n) ≡ some (seconds (series n))
unfolding waits_match
waits_match-eq count series zero n h lt = absurd (omega arith)
waits_match-eq count series (suc k) n h lt = elim (dec_lt n k) [
  | yes below ↦ waits_match-eq count series k n (ground arith) below
  | no above ↦
      let same : k ≡ n = omega arith in
      let last : is_seconds (wait_duration (count k)) (series k) ≡ true = ground arith in
      rw same at (is_seconds-eq _ _ last)
]

wait_table : waits_match (λ n. pos (suc n)) backoff_seconds 31 ≡ true
unfolding waits_match is_seconds wait_duration shift_one backoff_seconds
wait_table = refl

-- Up to the 31st retry the wait is the next of the series 5 s, 10 s, 20 s, 40 s, 60 s, 60 s ...
pub wait_duration-backoff :
    (n : ℕ) → n < 31 → wait_duration (pos (suc n)) ≡ some (seconds (backoff_seconds n))
wait_duration-backoff n h = waits_match-eq (λ k. pos (suc k)) backoff_seconds 31 n wait_table h

backoff_seconds_bounds : (n : ℕ) → (5 ≤ backoff_seconds n) × (backoff_seconds n ≤ 60)
unfolding backoff_seconds
backoff_seconds_bounds zero = omega arith
backoff_seconds_bounds (suc n) = ground (arith, backoff_seconds_bounds n)

-- At the 32nd retry the product wraps around to a negative duration.
pub wait_duration-negative : wait_duration (pos 32) ≡ some (negsuc 7_709_325_833_709_551_615)
unfolding wait_duration shift_one
wait_duration-negative = refl

zero_table : waits_match (λ n. pos (n + 56)) (λ n. 0) 9 ≡ true
unfolding waits_match is_seconds wait_duration shift_one
zero_table = refl

shift_count : (n : ℕ) → n < 2 ^ 63 → wrap 64 (pos (suc n) -ℤ pos 1) ≡ pos n
shift_count n h = ground arith

far_factor : (n : ℕ) → 64 ≤ n → shift_one (pos n) ≡ some (pos 0)
unfolding shift_one
far_factor n h = ground arith

wait_far : (n : ℕ) → 64 ≤ n → n < 2 ^ 63 → wait_duration (pos (suc n)) ≡ some (seconds 0)
unfolding wait_duration
wait_far n h k =
    ap (λ c. wait_for_factor (shift_one c)) (shift_count n k) ∙ ap wait_for_factor (far_factor n h)

wait_near : (n : ℕ) → n < 9 → wait_duration (pos (n + 56)) ≡ some (seconds 0)
wait_near n h = waits_match-eq (λ k. pos (k + 56)) (λ k. 0) 9 n zero_table h

-- From the 56th retry on, up to a count of 63 bits, the wait is 0.
pub wait_duration-zero :
    (n : ℕ) → 55 ≤ n → n < 2 ^ 63 → wait_duration (pos (suc n)) ≡ some (seconds 0)
wait_duration-zero n h k = elim (dec_lt n 64) [
  | yes near ↦
      let e : (n - 55) + 56 ≡ suc n = omega arith in rw e at (wait_near (n - 55) (omega arith))
  | no far ↦ wait_far n (omega arith) k
]

-- The shift does not panic for a count of 1 or more.
pub wait_duration-some :
    (n : ℕ) → n < 2 ^ 63 → (w : Duration) × (wait_duration (pos (suc n)) ≡ some w)
unfolding wait_duration shift_one
wait_duration-some n h = (_, ap (λ c. wait_for_factor (shift_one c)) (shift_count n h))
