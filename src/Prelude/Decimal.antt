-- ===== src/Prelude/Decimal.antt =====
-- Decimal numerals, as `strconv.Itoa` and the verb `%d` print them.
mod Laws
use Prim.Native.Nat.{ℕ, zero, suc, ◌+◌, ◌/◌, ◌%◌}
use Prim.Native.String.{String, ◌++◌}
use mathlib.Core.Path.{◌≡◌, refl}
use kube_debug_sess.Prelude.Tests.{ltb, ◌==◌, if◌then◌else◌}
use kube_debug_sess.Prelude.Int.{ℤ, pos, negsuc}

unfoldable pub digit : ℕ → String
digit d =
    if d == 0
    then "0"
    else if d == 1
    then "1"
    else if d == 2
    then "2"
    else if d == 3
    then "3"
    else if d == 4
    then "4"
    else if d == 5
    then "5"
    else if d == 6
    then "6"
    else if d == 7
    then "7"
    else if d == 8
    then "8"
    else "9"

-- A number has at most as many digits as it has units, plus one: the fuel.
unfoldable pub show_digits : ℕ → ℕ → String
unfolding digit
show_digits zero n = ""
show_digits (suc fuel) n =
    let rest = show_digits fuel (n / 10) in if ltb n 10 then digit n else rest ++ digit (n % 10)

unfoldable pub show_nat : ℕ → String
unfolding show_digits
show_nat n = show_digits (n + 1) n

unfoldable pub show_int : ℤ → String
unfolding show_nat
show_int (pos n) = show_nat n
show_int (negsuc n) = "-" ++ show_nat (n + 1)

show_int_test : show_int (negsuc 2047) ≡ "-2048"
unfolding show_int
show_int_test = refl
