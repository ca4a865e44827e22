-- ===== src/Proxy/Text/Laws.antt =====
-- Splitting and trimming undo what joins a scheme to a token and a prefix to a name.
use Prim.Native.Char.{Char, code}
use text.Mathlib.TextEquality.{Char-path}
use Prim.Native.String.append
use kube_debug_sess.Prelude.{
  ◌≡◌, refl, sym, ap, ◌∙◌, ◌≢◌, ◌⊎◌, inl, inr, Bool-cases, Option-cases, String, ◌<>◌, ◌==◌, some,
  List, [], ◌∷◌, arith,
}
use kube_debug_sess.Prelude.Texts.{Lacks}
use kube_debug_sess.Proxy.Text.{extend, split_space, after_prefix, trim_prefix}

-- No character of a text is a space.
abbrev pub HasNoSpace : String → Type 0
HasNoSpace s = Lacks b' ' s

split_space_word : (s : String) → HasNoSpace s → split_space s ≡ s ∷ []
unfolding split_space
split_space_word String.[] h = refl
split_space_word (String.◌∷◌ c s) h = ground (arith, split_space_word s h.1)

split_space-blank : (t : String) → HasNoSpace t → split_space (" " <> t) ≡ "" ∷ t ∷ []
unfolding split_space
split_space-blank t k = rw (append.cons, append.nil) (rw (split_space_word t k))

-- Two words with one space between them are split into the two words.
pub split_space-append :
    (s t : String) → HasNoSpace s → HasNoSpace t → split_space (s <> (" " <> t)) ≡ s ∷ t ∷ []
unfolding split_space
split_space-append String.[] t h k = rw append.nil (split_space-blank t k)
split_space-append (String.◌∷◌ c s) t h k =
    rw append.cons (ground (arith, split_space-append s t h.1 k))

after_prefix-append : (p s : String) → after_prefix (p <> s) p ≡ some s
unfolding after_prefix
after_prefix-append String.[] s = rw append.nil
after_prefix-append (String.◌∷◌ c p) s = rw append.cons (ground (arith, after_prefix-append p s))

-- A prefix that was put in front is taken off.
pub trim_prefix-append : (p s : String) → trim_prefix (p <> s) p ≡ s
unfolding trim_prefix
trim_prefix-append p s = rw (after_prefix-append p s, trim_prefix)

-- Texts with a space between each and the next.
abbrev join_space : List String → String
join_space [] = ""
join_space (p ∷ []) = p
join_space (p ∷ q ∷ parts) = p <> (" " <> join_space (q ∷ parts))

join_space-extend :
    (c : Char) (parts : List String) → join_space (extend c parts) ≡ String.◌∷◌ c (join_space parts)
join_space-extend c [] = refl
join_space-extend c (p ∷ []) = refl
join_space-extend c (p ∷ q ∷ parts) = append.cons c p (" " <> join_space (q ∷ parts))

extend-ne-nil : (c : Char) (parts : List String) → extend c parts ≢ []
extend-ne-nil c [] e = cc e
extend-ne-nil c (p ∷ parts) e = cc e

split_space-ne-nil : (s : String) → split_space s ≢ []
unfolding split_space
split_space-ne-nil String.[] e = cc e
split_space-ne-nil (String.◌∷◌ c s) e = elim (Bool-cases (code c == b' ')) [
  | inl h ↦ absurd (ground arith)
  | inr h ↦ extend-ne-nil c (split_space s) (ground arith)
]

join_space-blank :
    (parts : List String) → parts ≢ [] → join_space ("" ∷ parts) ≡ String.◌∷◌ " " (join_space parts)
join_space-blank [] h = absurd (h refl)
join_space-blank (p ∷ parts) h = rw (append.nil, append.cons, append.nil) refl

-- The parts of a text, joined again, are the text.
join_space-split_space : (s : String) → join_space (split_space s) ≡ s
unfolding split_space
join_space-split_space String.[] = refl
join_space-split_space (String.◌∷◌ c s) = elim (Bool-cases (code c == b' ')) [
  | inl h ↦
      let space : c ≡ " " = Char-path c " " (ground arith) in
      rw h (
        join_space-blank (split_space s) (split_space-ne-nil s)
        ∙ cc (join_space-split_space s, space))
  | inr h ↦
      rw h
        (join_space-extend c (split_space s) ∙ ap (λ t. String.◌∷◌ c t) (join_space-split_space s))
]

-- A text that is split into two is the one, a space and the other.
pub split_space_join : (s a b : String) → split_space s ≡ a ∷ b ∷ [] → s ≡ a <> (" " <> b)
split_space_join s a b h = sym (join_space-split_space s) ∙ ap join_space h

after_prefix_join : (s p t : String) → after_prefix s p ≡ some t → s ≡ p <> t
unfolding after_prefix
after_prefix_join s String.[] t h = rw append.nil (cc h)
after_prefix_join String.[] (String.◌∷◌ d p) t h = absurd (cc h)
after_prefix_join (String.◌∷◌ c s) (String.◌∷◌ d p) t h = elim (Bool-cases (code c == code d)) [
  | inl e ↦
      let rest = after_prefix_join s p t (ground arith) in
      let head : c ≡ d = Char-path c d (ground arith) in rw append.cons (cc (rest, head))
  | inr e ↦ absurd (ground arith)
]

-- A text whose prefix is trimmed is the prefix and the rest, or has stayed as it was.
pub trim_prefix_cases : (s p : String) → (s ≡ p <> trim_prefix s p) ⊎ (trim_prefix s p ≡ s)
unfolding trim_prefix
trim_prefix_cases s p = elim (Option-cases (after_prefix s p)) [
  | inl e ↦ inr (rw (e, trim_prefix) refl)
  | inr (t, e) ↦ inl (rw (e, trim_prefix) (after_prefix_join s p t e))
]
