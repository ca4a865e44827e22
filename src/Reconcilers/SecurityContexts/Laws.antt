-- ===== src/Reconcilers/SecurityContexts/Laws.antt =====
-- What the debug container may do beyond the locked-down default, and what becomes of `Drop`.
use mathlib.Core.Path.{subst}
use mathlib.Core.List.{Memᴰ}
use kube_debug_sess.Prelude.{
  ◌≡◌, refl, sym, ◌↔◌, String, true, false, Option, none, some, Option-cases, List, [], ◌∷◌, ◌⊎◌,
  inl, inr, arith,
}
use kube_debug_sess.Prelude.Int.{pos}
use kube_debug_sess.Api.{Capabilities, DebugSecurityContext}
use kube_debug_sess.Kube.{SecurityContext}
use kube_debug_sess.Reconcilers.SecurityContexts.{
  override, merge_capabilities, default_security_context, build_security_context,
}

-- The user's value for a field, if there is one.
abbrev pub asked {ℓ} :
    {A : Type ℓ} → Option DebugSecurityContext → (DebugSecurityContext → Option A) → Option A
asked none f = none
asked (some sec) f = f sec

-- A field is what the user asked for, or the default where the user asked for nothing.
abbrev pub IsChosen {ℓ} : {A : Type ℓ} → Option A → A → Option A → Type ℓ
IsChosen {A} choice default value =
    ((choice ≡ none) × (value ≡ some default)) ⊎ ((a : A) × (choice ≡ some a) × (value ≡ some a))

override-IsChosen {ℓ} :
    {A : Type ℓ} (choice : Option A) (default : A)
    → IsChosen choice default (override choice (some default))
override-IsChosen none default = inl (refl, refl)
override-IsChosen (some a) default = inr (a, refl, refl)

pub record IsHardened (sec : Option DebugSecurityContext) (sc : SecurityContext) : Type 0 where
  pub privileged : IsChosen (asked sec (λ x. x.privileged)) false sc.privileged
  pub escalation :
      IsChosen (asked sec (λ x. x.allow_privilege_escalation)) false sc.allow_privilege_escalation
  pub non_root : IsChosen (asked sec (λ x. x.run_as_non_root)) true sc.run_as_non_root
  pub read_only :
      IsChosen (asked sec (λ x. x.read_only_root_filesystem)) true sc.read_only_root_filesystem
  pub user : IsChosen (asked sec (λ x. x.run_as_user)) (pos 1000) sc.run_as_user
  pub group : IsChosen (asked sec (λ x. x.run_as_group)) (pos 1000) sc.run_as_group

-- In each field but the capabilities, the context has the value that the session's spec sets, and
-- where it sets none the locked-down default: no privileges, no escalation, not root, a read-only
-- file system, user and group 1000.
pub build_security_context-IsHardened :
    (sec : Option DebugSecurityContext) → IsHardened sec (build_security_context sec)
unfolding build_security_context default_security_context
build_security_context-IsHardened none = record {
  privileged = inl (refl, refl);
  escalation = inl (refl, refl);
  non_root = inl (refl, refl);
  read_only = inl (refl, refl);
  user = inl (refl, refl);
  group = inl (refl, refl);
}
build_security_context-IsHardened (some sec) = record {
  privileged = override-IsChosen sec.privileged false;
  escalation = override-IsChosen sec.allow_privilege_escalation false;
  non_root = override-IsChosen sec.run_as_non_root true;
  read_only = override-IsChosen sec.read_only_root_filesystem true;
  user = override-IsChosen sec.run_as_user (pos 1000);
  group = override-IsChosen sec.run_as_group (pos 1000);
}

-- Capabilities with a capability among those to drop.
abbrev pub Drops : String → Option Capabilities → Type 0
Drops name none = ⊥
Drops name (some c) = (l : List String) × (c.drop ≡ some l) × Memᴰ name l

merge-Drops :
    (choice : Option Capabilities)
    → Drops "ALL" (merge_capabilities choice default_security_context.capabilities)
      ↔ (choice ≡ none) ⊎ Drops "ALL" choice
unfolding default_security_context
merge-Drops none = (λ d. inl refl, λ d. ("ALL" ∷ [], refl, Memᴰ.head refl))
merge-Drops (some c) = elim (Option-cases c.drop) [
  | inl e ↦ (
    λ (l, same, m).
        let empty : [] ≡ l = ground arith in
        let m' : Memᴰ "ALL" [] = subst (Memᴰ "ALL") (sym empty) m in elim m' [ ],
    elim [ inl q ↦ absurd (cc q) | inr (l, same, m) ↦ absurd (cc (e, same)) ],
  )
  | inr (k, e) ↦ (
    λ (l, same, m). inr (k, e, subst (Memᴰ "ALL") (ground arith) m),
    elim [ inl q ↦ absurd (cc q) | inr (l, same, m) ↦ (l, ground arith, m) ],
  )
]

-- A debug container drops all capabilities exactly where its spec sets no capabilities, or has
-- `ALL` among those that it drops: a spec that only adds some loses the default.
pub build_security_context-Drops :
    (sec : Option DebugSecurityContext)
    → Drops "ALL" (build_security_context sec).capabilities
      ↔ (asked sec (λ x. x.capabilities) ≡ none) ⊎ Drops "ALL" (asked sec (λ x. x.capabilities))
unfolding build_security_context
build_security_context-Drops none = merge-Drops none
build_security_context-Drops (some sec) = merge-Drops sec.capabilities
