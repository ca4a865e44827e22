-- ===== src/Prelude/Decimal/Laws.antt =====
-- The fuel of the decimal numerals is enough.
use Prim.Native.Nat.{ℕ, zero, suc, ◌+◌, ◌/◌, ◌%◌, ◌<◌}
use Prim.Native.String.{◌++◌}
use mathlib.Core.Path.{◌≡◌, refl, ap, ◌∙◌}
use mathlib.Core.Logic.{inl, inr}
use native.Mathlib.Omega.{arith}
use kube_debug_sess.Prelude.Tests.{ltb, if◌then◌else◌, Bool-cases}
use kube_debug_sess.Prelude.Decimal.{digit, show_digits, show_nat}

-- Any fuel above the number gives the same numeral.
show_digits_fuel : (f g n : ℕ) → n < f → n < g → show_digits f n ≡ show_digits g n
unfolding show_digits
show_digits_fuel zero g n h k = absurd (omega arith)
show_digits_fuel (suc f) zero n h k = absurd (omega arith)
show_digits_fuel (suc f) (suc g) n h k = elim (Bool-cases (ltb n 10)) [
  | inl e ↦ ground arith
  | inr e ↦
      let lt : 10 < n + 1 = ground arith in
      ap (λ rest. if ltb n 10 then digit n else rest ++ digit (n % 10))
        (show_digits_fuel f g (n / 10) (omega arith) (omega arith))
]

show_digits-suc :
    (n : ℕ)
    → show_digits (suc n) n ≡ (if ltb n 10 then digit n else show_nat (n / 10) ++ digit (n % 10))
unfolding show_nat show_digits
show_digits-suc n = elim (Bool-cases (ltb n 10)) [
  | inl e ↦ rw e refl
  | inr e ↦
      let lt : 10 < n + 1 = ground arith in
      ap (λ rest. if ltb n 10 then digit n else rest ++ digit (n % 10))
        (show_digits_fuel n (n / 10 + 1) (n / 10) (omega arith) (omega arith))
]

-- A numeral is that of the number without its last digit, if any is left, and the last digit.
show_nat_digits :
    (n : ℕ) → show_nat n ≡ (if ltb n 10 then digit n else show_nat (n / 10) ++ digit (n % 10))
unfolding show_nat
show_nat_digits n =
    let e : n + 1 ≡ suc n = omega arith in ap (λ f. show_digits f n) e ∙ show_digits-suc n
