-- ===== src/Prelude/Texts.antt =====
-- Texts that lack a character, and where such a character separates them: the names that the code
-- joins with slashes, dashes and spaces.
use Prim.Native.Char.{code}
use Prim.Native.Nat.{ℕ, zero, suc, ◌+◌, ◌/◌, ◌%◌, ◌<◌}
use Prim.Native.String.{String, ◌++◌ as ◌<>◌}
use Prim.Native.String.append
use mathlib.Core.Path.{◌≡◌, refl, sym, ap, ◌∙◌}
use mathlib.Core.Logic.{◌≢◌}
use mathlib.Core.Bool.{Bool, true, false}
use mathlib.Core.Option.{Option, none, some}
use native.Mathlib.Omega.{arith}
use kube_debug_sess.Prelude.Tests.{ltb, ◌==◌, if◌then◌else◌}
use kube_debug_sess.Prelude.Decimal.{digit, show_digits, show_nat}

-- No character of the text has the code.
abbrev pub Lacks : ℕ → String → Type 0
Lacks k String.[] = Unit
Lacks k (String.◌∷◌ c s) = (code c ≢ k) × Lacks k s

pub Lacks-append : (k : ℕ) (s t : String) → Lacks k s → Lacks k t → Lacks k (s <> t)
Lacks-append k String.[] t h h' = rw append.nil h'
Lacks-append k (String.◌∷◌ c s) t h h' = rw append.cons (h.0, Lacks-append k s t h.1 h')

-- `Lacks` under a name that determines its text.
pub record IsWithout (k : ℕ) (s : String) : Type 0 where
  pub lacks : Lacks k s

pub if-IsWithout :
    (k : ℕ) (b : Bool) {s t : String}
    → IsWithout k s
    → IsWithout k t
    → IsWithout k (if b then s else t)
if-IsWithout k true h h' = h
if-IsWithout k false h h' = h'

pub word : (k : ℕ) (s : String) → Lacks k s → IsWithout k s
word k s h = record { lacks = h }

-- A digit is no character before the digits.
pub digit-IsWithout : (k d : ℕ) → k < b'0' → IsWithout k (digit d)
unfolding digit
digit-IsWithout k d low = if-IsWithout k _ (word k "0" (omega arith)) (
    if-IsWithout k _ (word k "1" (omega arith)) (
      if-IsWithout k _ (word k "2" (omega arith)) (
        if-IsWithout k _ (word k "3" (omega arith)) (
          if-IsWithout k _ (word k "4" (omega arith)) (
            if-IsWithout k _ (word k "5" (omega arith)) (
              if-IsWithout k _ (word k "6" (omega arith)) (
                if-IsWithout k _ (word k "7" (omega arith))
                  (if-IsWithout k _ (word k "8" (omega arith)) (word k "9" (omega arith))))))))))

show_digits-IsWithout : (k : ℕ) → k < b'0' → (fuel n : ℕ) → IsWithout k (show_digits fuel n)
unfolding show_digits
show_digits-IsWithout k low zero n = word k "" tt
show_digits-IsWithout k low (suc fuel) n = if-IsWithout k (ltb n 10) (digit-IsWithout k n low) (
    word k _ (
      Lacks-append k _ _ (show_digits-IsWithout k low fuel (n / 10)).lacks
        (digit-IsWithout k (n % 10) low).lacks))

pub show_nat-Lacks : (k : ℕ) → k < b'0' → (n : ℕ) → Lacks k (show_nat n)
unfolding show_nat
show_nat-Lacks k low n = (show_digits-IsWithout k low (n + 1) n).lacks

-- The two sides of the first slash.
cut : String → String × String
cut String.[] = ("", "")
cut (String.◌∷◌ c s) =
    let (before, after) = cut s in if code c == b'/' then ("", s) else (String.◌∷◌ c before, after)

cut-join : (s t : String) → Lacks b'/' s → cut (s <> ("/" <> t)) ≡ (s, t)
unfolding cut
cut-join String.[] t h = rw (append.nil, append.cons, append.nil) refl
cut-join (String.◌∷◌ c s) t h = rw append.cons (ground (arith, cut-join s t h.1))

-- Texts with no slash, each with another after a slash, are told apart.
pub slash-joined :
    (s s' t t' : String)
    → Lacks b'/' s
    → Lacks b'/' s'
    → s <> ("/" <> t) ≡ s' <> ("/" <> t')
    → (s ≡ s') × (t ≡ t')
slash-joined s s' t t' h h' e =
    let same : (s, t) ≡ (s', t') = sym (cut-join s t h) ∙ ap cut e ∙ cut-join s' t' h' in
    (ap (λ (p : String × String). p.0) same, ap (λ (p : String × String). p.1) same)

-- What stands before the last dash.
before_last : String → Option String
before_last String.[] = none
before_last (String.◌∷◌ c s) =
    let rest = before_last s in
    elim rest [ some t ↦ some (String.◌∷◌ c t) | none ↦ if code c == b'-' then some "" else none ]

before_last-Lacks : (s : String) → Lacks b'-' s → before_last s ≡ none
unfolding before_last
before_last-Lacks String.[] h = refl
before_last-Lacks (String.◌∷◌ c s) h = ground (arith, before_last-Lacks s h.1)

before_last-join : (s t : String) → Lacks b'-' t → before_last (s <> ("-" <> t)) ≡ some s
unfolding before_last
before_last-join String.[] t h =
    rw (append.nil, append.cons, append.nil) (ground (arith, before_last-Lacks t h))
before_last-join (String.◌∷◌ c s) t h = rw append.cons (ground (arith, before_last-join s t h))

some_inj : {s t : String} → some s ≡ some t → s ≡ t
some_inj e = cc e

-- Texts that differ, each with another with no dash after a dash, make texts that differ.
pub dash-joined :
    (s s' t t' : String)
    → Lacks b'-' t
    → Lacks b'-' t'
    → s <> ("-" <> t) ≡ s' <> ("-" <> t')
    → s ≡ s'
dash-joined s s' t t' h h' e =
    some_inj (sym (before_last-join s t h) ∙ ap before_last e ∙ before_last-join s' t' h')

-- A shared beginning is taken off.
pub append_cancel : (p s t : String) → p <> s ≡ p <> t → s ≡ t
append_cancel String.[] s t e = sym (append.nil s) ∙ e ∙ append.nil t
append_cancel (String.◌∷◌ c p) s t e =
    append_cancel p s t (cc (sym (append.cons c p s) ∙ e ∙ append.cons c p t))
