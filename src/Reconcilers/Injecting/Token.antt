-- ===== src/Reconcilers/Injecting/Token.antt =====
-- `generateSecureToken` of internal/controller/session_phases/reconcilers/injecting_reconciler.go,
-- and `hex.EncodeToString`.
use kube_debug_sess.Prelude.{
  ℕ, zero, suc, ◌/◌, ◌%◌, String, List, [], ◌∷◌, ◌<>◌, ltb, ◌==◌, if◌then◌else◌,
}
use kube_debug_sess.Prelude.Decimal.{digit}
use kube_debug_sess.Kube.{Fallible, ok, err}
use kube_debug_sess.Cluster.{Env, M, pure, ◌>>=◌, rand_read}
use kube_debug_sess.SessionPhases.Outcome.{GoError, plain}

-- A digit below 16.
unfoldable pub hex_digit : ℕ → String
hex_digit d =
    if ltb d 10
    then digit d
    else if d == 10
    then "a"
    else if d == 11
    then "b"
    else if d == 12
    then "c"
    else if d == 13
    then "d"
    else if d == 14
    then "e"
    else "f"

unfoldable pub encode_to_string : List ℕ → String
unfolding hex_digit digit
encode_to_string [] = ""
encode_to_string (b ∷ bytes) = hex_digit (b / 16) <> (hex_digit (b % 16) <> encode_to_string bytes)

-- `rand.Read` into a buffer of the given length, which holds bytes.
unfoldable pub fill : ℕ → (ℕ → ℕ) → List ℕ
fill zero source = []
fill (suc n) source = (source 0 % 256) ∷ fill n (λ i. source (suc i))

module _ (env : Env) where
  unfoldable pub generate_secure_token : ℕ → M (Fallible GoError String)
  generate_secure_token length = do
    answer ← rand_read env length
    pure (elim answer [
      | err e ↦ err (plain e.text)
      | ok source ↦ ok (encode_to_string (fill length source))
    ])
