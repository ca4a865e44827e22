-- ===== src/Proxy/Text.antt =====
-- The functions of Go's package `strings` that internal/proxy/server.go calls, over characters: all
-- that they look for is ASCII.
use Prim.Native.Char.{Char, code}
pub mod Laws
use Prim.Native.String
use kube_debug_sess.Prelude.{
  ℕ, ◌+◌, String, Bool, true, false, ◌&&◌, Option, none, some, List, [], ◌∷◌, leb, ◌==◌,
  if◌then◌else◌,
}

-- Puts a character in front of the first part.
abbrev pub extend : Char → List String → List String
extend c [] = (String.◌∷◌ c String.[]) ∷ []
extend c (p ∷ parts) = (String.◌∷◌ c p) ∷ parts

-- `strings.Split(s, " ")`
unfoldable pub split_space : String → List String
split_space String.[] = "" ∷ []
split_space (String.◌∷◌ c s) =
    let parts = split_space s in if code c == b' ' then "" ∷ parts else extend c parts

abbrev to_lower : ℕ → ℕ
to_lower c = if leb b'A' c && leb c b'Z' then c + 32 else c

-- `strings.EqualFold` against a text of letters that fold to ASCII letters alone, as "bearer" is.
unfoldable pub equal_fold : String → String → Bool
equal_fold String.[] String.[] = true
equal_fold String.[] (String.◌∷◌ d t) = false
equal_fold (String.◌∷◌ c s) String.[] = false
equal_fold (String.◌∷◌ c s) (String.◌∷◌ d t) =
    (to_lower (code c) == to_lower (code d)) && equal_fold s t

-- What follows a prefix.
unfoldable pub after_prefix : String → String → Option String
after_prefix s String.[] = some s
after_prefix String.[] (String.◌∷◌ d t) = none
after_prefix (String.◌∷◌ c s) (String.◌∷◌ d t) = if code c == code d then after_prefix s t else none

-- `strings.TrimPrefix`
unfoldable pub trim_prefix : String → String → String
unfolding after_prefix
trim_prefix s prefix = elim (after_prefix s prefix) [ none ↦ s | some rest ↦ rest ]
