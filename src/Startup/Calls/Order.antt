-- ===== src/Startup/Calls/Order.antt =====
-- The order of a program's calls, by a plan: the calls, each with the end that its failure brings,
-- if any.
use kube_debug_sess.Api.Registration.{SchemeBuilder}
use kube_debug_sess.Prelude.{
  String, Option, none, some, List, [], ◌∷◌, ◌++◌, ◌≡◌, refl, sym, ◌⊎◌, inl, inr, Option-cases,
}
use mathlib.Core.Path.{subst}
use kube_debug_sess.Kube.{Fallible, ok, err}
use kube_debug_sess.Startup.Calls.{
  Step, End, panicked, Failure, Answers, Program, ◌then◌, call, end_by, or_end, or_panic, ignoring,
}

-- The builder of the repository's group and version.
abbrev pub repository_builder : SchemeBuilder
repository_builder = record { builds = record { group = "ajou.oxan0n.me"; version = "v1alpha1" } }

abbrev pub Plan : Type 0
Plan = List (Step × Option End)

-- `Follows answers log plan result log'`: from the calls `log`, the calls of the plan are made in
-- order, until one whose failure ends the program fails or none is left.
pub data Follows (answers : Answers)
    : List Step → Plan → Fallible End (Unit {0}) → List Step → Type 0 where
  finished : {log : List Step} → Follows answers log [] (ok tt) log
  passes :
      {log log' : List Step} {step : Step} {end : Option End} {plan : Plan}
      {r : Fallible End (Unit {0})}
      → ((answers log step ≡ none) ⊎ (end ≡ none))
      → Follows answers (step ∷ log) plan r log'
      → Follows answers log ((step, end) ∷ plan) r log'
  stops :
      {log : List Step} {step : Step} {end : End} {plan : Plan}
      → (e : String) → answers log step ≡ some e
      → Follows answers log ((step, some end) ∷ plan) (err end) (step ∷ log)

module _ (answers : Answers) where
  -- A program that follows a plan, whatever was called before it.
  abbrev pub IsPlanned : Program End → Plan → Type 0
  IsPlanned p plan = (log : List Step) → Follows answers log plan (p log).0 (p log).1

  -- What runs after a result.
  abbrev continue : Program End → Fallible End (Unit {0}) → Program End
  continue q r log = elim r [ ok _ ↦ q log | err e ↦ (err e, log) ]

  Follows-append :
      {log log' : List Step} {plan : Plan} {r : Fallible End (Unit {0})} (plan' : Plan)
      (q : Program End)
      → Follows answers log plan r log'
      → IsPlanned q plan'
      → Follows answers log (plan ++ plan') (continue q r log').0 (continue q r log').1
  Follows-append {log} plan' q finished f = f log
  Follows-append plan' q (passes c rest) f = passes c (Follows-append plan' q rest f)
  Follows-append plan' q (stops e failed) f = stops e failed

  pub then-IsPlanned :
      (p q : Program End) (plan plan' : Plan)
      → IsPlanned p plan
      → IsPlanned q plan'
      → IsPlanned (p then q) (plan ++ plan')
  then-IsPlanned p q plan plan' f g log = Follows-append plan' q (f log) g

  pub or_end-IsPlanned :
      (step : Step) (end : End) → IsPlanned (or_end end (call answers step)) ((step, some end) ∷ [])
  or_end-IsPlanned step end log = elim (Option-cases (answers log step)) [
    | inl e ↦ rw e (passes (inl e) finished)
    | inr (x, e) ↦ rw e (stops x e)
  ]

  pub ignoring-IsPlanned : (step : Step) → IsPlanned (ignoring answers step) ((step, none) ∷ [])
  ignoring-IsPlanned step log = passes (inr refl) finished

  pub or_panic-IsPlanned :
      (step : Step) (end : End)
      → IsPlanned (or_end end (or_panic (call answers step))) ((step, some panicked) ∷ [])
  or_panic-IsPlanned step end log = elim (Option-cases (answers log step)) [
    | inl e ↦ rw e (passes (inl e) finished)
    | inr (x, e) ↦ rw e (stops x e)
  ]

  pub or_end-ignoring-IsPlanned :
      (step : Step) (end : End) → IsPlanned (or_end end (ignoring answers step)) ((step, none) ∷ [])
  or_end-ignoring-IsPlanned step end log = passes (inr refl) finished

  -- The end of a function is the end of its parts.
  or_end-continue :
      (q : Program Failure) (end : End) (r : Fallible Failure (Unit {0})) (log : List Step)
      → or_end end (λ l. elim r [ ok _ ↦ q l | err e ↦ (err e, l) ]) log
        ≡ continue (or_end end q) (elim r [ ok _ ↦ ok tt | err e ↦ err (end_by end e) ]) log
  or_end-continue q end (ok _) log = refl
  or_end-continue q end (err e) log = refl

  pub or_end_then-IsPlanned :
      (p q : Program Failure) (end : End) (plan plan' : Plan)
      → IsPlanned (or_end end p) plan
      → IsPlanned (or_end end q) plan'
      → IsPlanned (or_end end (p then q)) (plan ++ plan')
  or_end_then-IsPlanned p q end plan plan' f g log =
      subst (λ r. Follows answers log (plan ++ plan') r.0 r.1)
        (sym (or_end-continue q end (p log).0 (p log).1))
        (then-IsPlanned (or_end end p) (or_end end q) plan plan' f g log)
