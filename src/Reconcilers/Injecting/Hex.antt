-- ===== src/Reconcilers/Injecting/Hex.antt =====
-- A decoder for the text of a token, apart from the code, what it gives for the code's texts, and
-- the tokens of bytes that the surroundings give.
use Prim.Native.Char.{Char, code}
use Prim.Native.String.append
use kube_debug_sess.Prelude.{
  ℕ, zero, suc, ◌+◌, ◌-◌, ◌*◌, ◌/◌, ◌%◌, ◌<◌, ◌≡◌, refl, ap, ◌∙◌, String, ◌<>◌, ◌&&◌, Option, none,
  some, List, [], ◌∷◌, map, All, leb, if◌then◌else◌, arith, length,
}
use kube_debug_sess.Prelude.Decimal.{digit}
use kube_debug_sess.Kube.{ok}
use kube_debug_sess.Cluster.{Env, History}
use kube_debug_sess.Reconcilers.Injecting.Token.{hex_digit, encode_to_string, fill}

-- The value of a hexadecimal digit, by its character.
hex_value : ℕ → Option ℕ
hex_value c =
    if leb b'0' c && leb c b'9'
    then some (c - b'0')
    else if leb b'a' c && leb c b'f'
    then some (c - b'a' + 10)
    else none

abbrev pub push_byte : Option ℕ → Option ℕ → Option (List ℕ) → Option (List ℕ)
push_byte (some high) (some low) (some bytes) = some ((16 * high + low) ∷ bytes)
push_byte _ _ _ = none

-- The bytes that a text of pairs of digits stands for.
pub decode_string : String → Option (List ℕ)
decode_string String.[] = some []
decode_string (String.◌∷◌ c String.[]) = none
decode_string (String.◌∷◌ c (String.◌∷◌ d s)) =
    push_byte (hex_value (code c)) (hex_value (code d)) (decode_string s)

-- The text of a number below 16: one character, with the number as its value.
record IsHexDigit (d : ℕ) (s : String) : Type 0 where
  char : Char
  text : s ≡ String.◌∷◌ char String.[]
  value : hex_value (code char) ≡ some d

hex_digit-IsHexDigit : (d : ℕ) → d < 16 → IsHexDigit d (hex_digit d)
unfolding hex_digit digit hex_value
hex_digit-IsHexDigit zero h = record { char = _; text = refl; value = refl }
hex_digit-IsHexDigit (suc zero) h = record { char = _; text = refl; value = refl }
hex_digit-IsHexDigit (suc (suc zero)) h = record { char = _; text = refl; value = refl }
hex_digit-IsHexDigit (suc (suc (suc zero))) h = record { char = _; text = refl; value = refl }
hex_digit-IsHexDigit (suc (suc (suc (suc zero)))) h = record { char = _; text = refl; value = refl }
hex_digit-IsHexDigit (suc (suc (suc (suc (suc zero))))) h = record {
  char = _;
  text = refl;
  value = refl;
}
hex_digit-IsHexDigit (suc (suc (suc (suc (suc (suc zero)))))) h = record {
  char = _;
  text = refl;
  value = refl;
}
hex_digit-IsHexDigit (suc (suc (suc (suc (suc (suc (suc zero))))))) h = record {
  char = _;
  text = refl;
  value = refl;
}
hex_digit-IsHexDigit (suc (suc (suc (suc (suc (suc (suc (suc zero)))))))) h = record {
  char = _;
  text = refl;
  value = refl;
}
hex_digit-IsHexDigit (suc (suc (suc (suc (suc (suc (suc (suc (suc zero))))))))) h = record {
  char = _;
  text = refl;
  value = refl;
}
hex_digit-IsHexDigit (suc (suc (suc (suc (suc (suc (suc (suc (suc (suc zero)))))))))) h = record {
  char = _;
  text = refl;
  value = refl;
}
hex_digit-IsHexDigit (suc (suc (suc (suc (suc (suc (suc (suc (suc (suc (suc zero))))))))))) h =
    record { char = _; text = refl; value = refl }
hex_digit-IsHexDigit (suc (suc (suc (suc (suc (suc (suc (suc (suc (suc (suc (suc zero))))))))))))
      h =
    record { char = _; text = refl; value = refl }
hex_digit-IsHexDigit
      (suc (suc (suc (suc (suc (suc (suc (suc (suc (suc (suc (suc (suc zero))))))))))))) h =
    record { char = _; text = refl; value = refl }
hex_digit-IsHexDigit
      (suc (suc (suc (suc (suc (suc (suc (suc (suc (suc (suc (suc (suc (suc zero)))))))))))))) h =
    record { char = _; text = refl; value = refl }
hex_digit-IsHexDigit
      (suc (suc (suc (suc (suc (suc (suc (suc (suc (suc (suc (suc (suc (suc (suc zero)))))))))))))))
      h =
    record { char = _; text = refl; value = refl }
hex_digit-IsHexDigit
      (suc
        (suc (suc (suc (suc (suc (suc (suc (suc (suc (suc (suc (suc (suc (suc (suc d))))))))))))))))
      h =
    absurd (omega arith)

decode_pair :
    (high low : ℕ) (s t rest : String) (bytes : List ℕ)
    → IsHexDigit high s
    → IsHexDigit low t
    → decode_string rest ≡ some bytes
    → decode_string (s <> (t <> rest)) ≡ some ((16 * high + low) ∷ bytes)
unfolding decode_string
decode_pair high low s t rest bytes h k e =
    simp (h.text, k.text, append.cons, append.nil) (ground (arith, h.value, k.value, e))

-- The token of bytes is read back as those bytes.
decode_string-encode_to_string :
    (bytes : List ℕ)
    → All (λ b. b < 256) bytes
    → decode_string (encode_to_string bytes) ≡ some bytes
unfolding encode_to_string
decode_string-encode_to_string [] h = unfold decode_string in refl
decode_string-encode_to_string (b ∷ bytes) h =
    decode_pair (b / 16) (b % 16) (hex_digit (b / 16)) (hex_digit (b % 16)) (encode_to_string bytes)
      bytes (hex_digit-IsHexDigit (b / 16) (omega arith))
      (hex_digit-IsHexDigit (b % 16) (omega arith)) (decode_string-encode_to_string bytes h.1)
    ∙ ap (λ x. some (x ∷ bytes)) (omega arith)

fill-All : (n : ℕ) (source : ℕ → ℕ) → All (λ b. b < 256) (fill n source)
unfolding fill
fill-All zero source = tt
fill-All (suc n) source = (omega arith, fill-All n (λ i. source (suc i)))

length-fill : (n : ℕ) (source : ℕ → ℕ) → length (fill n source) ≡ n
unfolding fill
length-fill zero source = refl
length-fill (suc n) source = omega (arith, length-fill n (λ i. source (suc i)))

abbrev places : List ℕ
places =
    0 ∷ 1 ∷ 2 ∷ 3 ∷ 4 ∷ 5 ∷ 6 ∷ 7 ∷ 8 ∷ 9 ∷ 10 ∷ 11 ∷ 12 ∷ 13 ∷ 14 ∷ 15 ∷ 16 ∷ 17 ∷ 18 ∷ 19 ∷ 20
    ∷ 21 ∷ 22 ∷ 23 ∷ 24 ∷ 25 ∷ 26 ∷ 27 ∷ 28 ∷ 29 ∷ 30 ∷ 31 ∷ []

-- After these calls the surroundings give 32 random bytes when they are asked, and the token is
-- their hexadecimal text: it is read back as the byte at each of the places 0 to 31 of what was
-- given.
pub record IsDrawnAt (env : Env) (h : History) (token : String) : Type 0 where
  pub source : ℕ → ℕ
  pub given : env.random h 32 ≡ ok source
  pub text : token ≡ encode_to_string (fill 32 source)
  pub read_back : decode_string token ≡ some (map (λ i. source i % 256) places)

-- The token is of bytes that the surroundings give at some time.
abbrev pub IsDrawn : Env → String → Type 0
IsDrawn env token = (h : History) × IsDrawnAt env h token

pub IsDrawnAt_lem :
    (env : Env) (h : History) (token : String) (source : ℕ → ℕ)
    → env.random h 32 ≡ ok source
    → token ≡ encode_to_string (fill 32 source)
    → IsDrawnAt env h token
unfolding fill
IsDrawnAt_lem env h token source given text = record {
  source = source;
  given = given;
  text = text;
  read_back =
      ap decode_string text ∙ decode_string-encode_to_string (fill 32 source) (fill-All 32 source);
}
