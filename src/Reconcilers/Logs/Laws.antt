-- ===== src/Reconcilers/Logs/Laws.antt =====
-- What the cleaning of a log keeps and what it drops.
use kube_debug_sess.Prelude.{
  ℕ, zero, suc, ◌-◌, ◌/◌, ◌≡◌, ◌∙◌, refl, ap, ◌≢◌, Bool, true, false, Option, none, some, inl, inr,
  Option-cases, List, [], ◌∷◌, ◌++◌, arith, All, replicate,
}
use mathlib.Core.List.{append_assoc}
use kube_debug_sess.Kube.{LogStream, eof, broken, chunk, ok}
use kube_debug_sess.Reconcilers.Logs.{
  escape, newline, ends_escape, strip, replace_newlines, clean_log_data, read_log,
}

-- A byte that the log may hold once it is clean: no escape, carriage return, bell or backspace.
abbrev pub IsClean : ℕ → Type 0
IsClean b = (b ≢ 0x1b) × (b ≢ 0x0d) × (b ≢ 0x07) × (b ≢ 0x08)

strip-IsClean : (inside : Bool) (bytes : List ℕ) → All IsClean (strip inside bytes)
unfolding strip
strip-IsClean inside [] = tt
strip-IsClean inside (b ∷ bytes) =
    ground (arith, strip-IsClean true bytes, strip-IsClean false bytes)

replace_newlines-IsClean : (l : List ℕ) → All IsClean l → All IsClean (replace_newlines l)
unfolding replace_newlines
replace_newlines-IsClean [] h = h
replace_newlines-IsClean (a ∷ []) h = h
replace_newlines-IsClean (a ∷ b ∷ []) h = h
replace_newlines-IsClean (a ∷ b ∷ c ∷ rest) h =
    ground
      (arith, replace_newlines-IsClean rest h.1.1.1, replace_newlines-IsClean (b ∷ c ∷ rest) h.1)

-- In a cleaned log no byte is an escape (0x1b), a carriage return (0x0d), a bell (0x07) or a
-- backspace (0x08), whatever the log.
pub clean_log_data-IsClean : (bytes : List ℕ) → All IsClean (clean_log_data bytes)
unfolding clean_log_data
clean_log_data-IsClean bytes = replace_newlines-IsClean _ (strip-IsClean false bytes)

-- A run of n newlines keeps n - n / 3 of them.
replace_newlines-run :
    (n : ℕ) → replace_newlines (replicate n newline) ≡ replicate (n - n / 3) newline
unfolding replace_newlines
replace_newlines-run zero = refl
replace_newlines-run (suc zero) = refl
replace_newlines-run (suc (suc zero)) = refl
replace_newlines-run (suc (suc (suc n))) =
    let e : suc (suc (suc n)) - suc (suc (suc n)) / 3 ≡ suc (suc (n - n / 3)) = omega arith in
    rw e (ap (λ l. newline ∷ newline ∷ l) (replace_newlines-run n))

strip-body :
    (body rest : List ℕ) (e : ℕ)
    → All (λ b. ends_escape b ≡ false) body
    → ends_escape e ≡ true
    → strip true (body ++ (e ∷ rest)) ≡ strip false rest
unfolding strip
strip-body [] rest e h k = ground arith
strip-body (b ∷ body) rest e h k = ground (arith, strip-body body rest e h.1 k)

-- Bytes that are clean are kept, up to an escape sequence, which goes from the escape to the first
-- letter or `~`; after it the log is stripped from its start state again.
strip-sequence :
    (before body rest : List ℕ) (e : ℕ)
    → All IsClean before
    → All (λ b. ends_escape b ≡ false) body
    → ends_escape e ≡ true
    → strip false (before ++ (escape ∷ (body ++ (e ∷ rest)))) ≡ before ++ strip false rest
unfolding strip
strip-sequence [] body rest e h k l = rw (strip-body body rest e k l)
strip-sequence (b ∷ before) body rest e h k l =
    ground (arith, strip-sequence before body rest e h.1 k l)

strip-clean : (bytes : List ℕ) → All IsClean bytes → strip false bytes ≡ bytes
unfolding strip
strip-clean [] h = refl
strip-clean (b ∷ bytes) h = ground (arith, strip-clean bytes h.1)

-- To strip a log again changes nothing.
pub strip-strip : (bytes : List ℕ) → strip false (strip false bytes) ≡ strip false bytes
strip-strip bytes = strip-clean (strip false bytes) (strip-IsClean false bytes)

-- The bytes of a stream that ends, whatever the pieces that they come in.
unfoldable pub contents : LogStream → Option (List ℕ)
contents (eof bytes) = some bytes
contents (broken bytes text) = none
contents (chunk bytes rest) = elim (contents rest) [ none ↦ none | some l ↦ some (bytes ++ l) ]

-- The read loop gives, after what it has in its buffer, the bytes of a stream that ends.
pub read_log-contents :
    (stream : LogStream) (logs l : List ℕ)
    → contents stream ≡ some l
    → read_log stream logs ≡ ok (logs ++ l)
unfolding read_log contents
read_log-contents (eof bytes) logs l h = ground arith
read_log-contents (broken bytes text) logs l h = cc
read_log-contents (chunk bytes rest) logs l h = elim (Option-cases (contents rest)) [
  | inl e ↦ absurd (ground arith)
  | inr (m, e) ↦
      let same : bytes ++ m ≡ l = ground arith in
      read_log-contents rest (logs ++ bytes) m e
      ∙ ap ok (append_assoc logs bytes m ∙ ap (λ x. logs ++ x) same)
]
