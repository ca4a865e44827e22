-- ===== src/System/Lifecycle/Tokens.antt =====
-- What runs do to the tokens that are drawn in them.
use kube_debug_sess.Prelude.{◌≡◌, sym, ap, ◌∙◌, inl, inr, []}
use mathlib.Core.Path.{subst}
use kube_debug_sess.Api.{DebugSession}
use kube_debug_sess.Api.SessionPhase.{active}
use kube_debug_sess.Cluster.{Env}
use kube_debug_sess.Reconcilers.Injecting.Hex.{IsDrawn}
use kube_debug_sess.Updates.{KeepsStatus}
use kube_debug_sess.System.Attach.{IsCreated, IsCreated-IsGuarded, unset-IsCanonical}
use kube_debug_sess.Api.{phase_text}
use kube_debug_sess.Controller.{reconciler_for, run_reconciler, reconcile_session}
use kube_debug_sess.Controller.Runs.{IsCanonical, stored-Follows, ⟶-IsCanonical}
use kube_debug_sess.Updates.{Updates-mem}
use kube_debug_sess.System.Guarded.{IsGuarded, run-IsGuarded}
use kube_debug_sess.System.Guarded.Steps.{has_debugger, Watched, active-Watched}
use kube_debug_sess.System.Store.{after, after-phase, stored-IsStored}

-- A run keeps a session guarded for the tokens that are drawn in its surroundings.
record IsKept (env : Env) (s : DebugSession) : Type 0 where
  canonical : IsCanonical s.status.phase
  guarded : IsGuarded (IsDrawn env) s

after-IsKept :
    (env : Env) → KeepsStatus env → (s : DebugSession) → IsKept env s → IsKept env (after env s)
unfolding after
after-IsKept env keeps s k = elim (stored-IsStored env s (reconcile_session env s []).1) [
  | inl e ↦ subst (IsKept env) (sym e) k
  | inr (t, m, e) ↦
      let g = run-IsGuarded (IsDrawn env) env (λ token d. d) s t keeps k.canonical k.guarded m in
      subst (IsKept env) (sym e) (record {
        canonical = ⟶-IsCanonical (stored-Follows env s t keeps k.canonical m);
        guarded = record { tokened = g.tokened; ready = g.ready };
      })
]

pub after_three_token :
    (env : Env)
    → KeepsStatus env
    → (s : DebugSession) → IsCreated s
    → (after env (after env (after env s))).status.phase ≡ active
    → IsDrawn env (after env (after env (after env s))).status.one_time_token
after_three_token env keeps s c e =
    let first : IsKept env s = record {
      canonical = subst IsCanonical (sym c.phase) unset-IsCanonical;
      guarded = IsCreated-IsGuarded (IsDrawn env) s c;
    } in
    let one = after-IsKept env keeps in
    let third = one _ (one _ (one s first)) in
    elim (third.guarded.tokened) [
      | inl bare ↦ absurd (cc (ap has_debugger e, bare))
      | inr drawn ↦ drawn
    ]

-- A run of an active session keeps its token.
pub after_active-token :
    (env : Env)
    → KeepsStatus env
    → (s : DebugSession) → s.status.phase ≡ active
    → (after env s).status.one_time_token ≡ s.status.one_time_token
unfolding run_reconciler reconciler_for phase_text
after_active-token env keeps s e =
    let h = (run_reconciler (reconciler_for env active) s []).1 in
    let same = ap (λ t. t.status.one_time_token) (after-phase env s active e) in
    same ∙ elim (stored-IsStored env s h) [
      | inl q ↦ ap (λ t. t.status.one_time_token) q
      | inr (t, m, q) ↦
          ap (λ t. t.status.one_time_token) q
          ∙ (Updates-mem (Watched s) t h (active-Watched env s [] e tt) m).0
    ]
