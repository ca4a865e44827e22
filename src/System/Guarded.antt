-- ===== src/System/Guarded.antt =====
-- When a stored session may be ready, and that it then has a token that was drawn.
pub mod Steps
use kube_debug_sess.Prelude.{
  ◌≡◌, refl, sym, ap, String, ◌⊎◌, inl, inr, true, false, [], arith, All-mem,
}
use mathlib.Core.Path.{subst}
use mathlib.Core.List.{Memᴰ}
use kube_debug_sess.Api.{SessionPhase, phase_text, DebugSession}
use kube_debug_sess.Api.SessionPhase.{
  unset, pending, injecting, active, retrying, terminating, completed, failed, other,
}
use kube_debug_sess.Cluster.{Env, updated_status}
use kube_debug_sess.Updates.{OnUpdate, Updates, KeepsStatus}
use kube_debug_sess.Reconcilers.Injecting.Hex.{IsDrawn}
use kube_debug_sess.Reconcilers.Failed
use kube_debug_sess.Controller.{reconciler_for, run_reconciler, reconcile_session}
use kube_debug_sess.Controller.Diagram.{
  ◌⟶◌, create, validate, reject, hold, inject, refuse, announce, retry, succeed, lose, again,
  resolve, give_up, archive, complete, abort, close, spoil,
}
use kube_debug_sess.Controller.Runs.{
  reconciler_for-other, IsCanonical, Run, start, step, stored-Follows, ⟶-IsCanonical,
}
use kube_debug_sess.System.Guarded.Steps.{
  has_debugger, may_be_ready, NotReady, Holds, Watched, Equipped, pending-NotReady,
  completed-NotReady, terminating-NotReady, retrying-Holds, active-Watched, injecting-Equipped,
}

-- For tokens with a property: a session with a debugger has such a token; a session is ready only
-- where it may be, and has one.
pub record IsGuarded (D : String → Type 0) (s : DebugSession) : Type 0 where
  pub tokened : (has_debugger s.status.phase ≡ false) ⊎ D s.status.one_time_token
  pub ready :
      (s.status.ready_for_attach ≡ false)
      ⊎ (may_be_ready s.status.phase ≡ true) × D s.status.one_time_token

pub IsGuarded-map :
    {D D' : String → Type 0}
    → ((token : String) → D token → D' token)
    → (s : DebugSession) → IsGuarded D s
    → IsGuarded D' s
IsGuarded-map f s g = record {
  tokened = elim (g.tokened) [ inl e ↦ inl e | inr d ↦ inr (f _ d) ];
  ready = elim (g.ready) [ inl e ↦ inl e | inr (may, d) ↦ inr (may, f _ d) ];
}

-- What holds of each session that a run stores, by the phase that it is read with.
abbrev Keeps : Env → SessionPhase → DebugSession → DebugSession → Type 0
Keeps env injecting s t = Equipped env t
Keeps env active s t = Watched s t
Keeps env retrying s t = Holds s t
Keeps env _ s t = NotReady t

module _ (D : String → Type 0) (env : Env) (keeps : KeepsStatus env) (s : DebugSession)
    (guarded : IsGuarded D s) where
  not_ready : (p : SessionPhase) → s.status.phase ≡ p → may_be_ready p ≡ false → NotReady s
  not_ready p e n = ground (arith, guarded.ready)

  run-Keeps :
      (p : SessionPhase)
      → IsCanonical p
      → s.status.phase ≡ p
      → Updates (Keeps env p s) (run_reconciler (reconciler_for env p) s []).1
  unfolding run_reconciler reconciler_for Failed.reconcile phase_text
  run-Keeps unset c e = pending-NotReady env s [] (not_ready unset e refl) tt
  run-Keeps pending c e = pending-NotReady env s [] (not_ready pending e refl) tt
  run-Keeps injecting c e = injecting-Equipped env keeps s [] (not_ready injecting e refl) e tt
  run-Keeps active c e = active-Watched env s [] e tt
  run-Keeps retrying c e = retrying-Holds env s [] (not_ready retrying e refl) tt
  run-Keeps terminating c e = terminating-NotReady env keeps s [] (not_ready terminating e refl) tt
  run-Keeps completed c e = completed-NotReady env s [] (not_ready completed e refl) tt
  run-Keeps failed c e = tt
  run-Keeps (other text) c e = rw (reconciler_for-other env text c) tt

-- Only from injection on, and while it is watched, has a session a debugger.
edge-has_debugger :
    {p q : SessionPhase}
    → p ⟶ q
    → ((p ≡ injecting) ⊎ (has_debugger p ≡ true)) ⊎ (has_debugger q ≡ false)
edge-has_debugger create = inr refl
edge-has_debugger validate = inr refl
edge-has_debugger reject = inr refl
edge-has_debugger hold = inr refl
edge-has_debugger inject = inl (inl refl)
edge-has_debugger refuse = inr refl
edge-has_debugger announce = inl (inr refl)
edge-has_debugger retry = inl (inr refl)
edge-has_debugger succeed = inr refl
edge-has_debugger lose = inr refl
edge-has_debugger again = inl (inr refl)
edge-has_debugger resolve = inl (inr refl)
edge-has_debugger give_up = inr refl
edge-has_debugger archive = inr refl
edge-has_debugger complete = inr refl
edge-has_debugger abort = inr refl
edge-has_debugger close = inr refl
edge-has_debugger spoil = inr refl

-- A property that every token has that is drawn in the surroundings.
module _ (D : String → Type 0) (env : Env)
    (draws : (token : String) → IsDrawn env token → D token) where
  -- A session that is not ready is guarded where it has no debugger or a token.
  NotReady-IsGuarded :
      (t : DebugSession)
      → NotReady t
      → (has_debugger t.status.phase ≡ false) ⊎ D t.status.one_time_token
      → IsGuarded D t
  NotReady-IsGuarded t quiet tokened = record { tokened = tokened; ready = inl quiet }

  kept_token :
      (s t : DebugSession)
      → t.status.one_time_token ≡ s.status.one_time_token
      → D s.status.one_time_token
      → D t.status.one_time_token
  kept_token s t e token = subst D (sym e) token

  had_token :
      (s : DebugSession) (p : SessionPhase)
      → s.status.phase ≡ p
      → has_debugger p ≡ true
      → IsGuarded D s
      → D s.status.one_time_token
  had_token s p e has g = elim (g.tokened) [
    | inl bare ↦ absurd (cc (ap has_debugger e, bare, has))
    | inr d ↦ d
  ]

  unwatched-IsGuarded :
      (t : DebugSession) → NotReady t → has_debugger t.status.phase ≡ false → IsGuarded D t
  unwatched-IsGuarded t k e = NotReady-IsGuarded t k (inl e)

  stored-IsGuarded :
      (s t : DebugSession) (p : SessionPhase)
      → s.status.phase ≡ p
      → IsGuarded D s
      → p ⟶ t.status.phase
      → Keeps env p s t
      → IsGuarded D t
  stored-IsGuarded s t injecting e g edge k = elim (k.1) [
    | inl bare ↦ unwatched-IsGuarded t k.0 bare
    | inr drawn ↦ NotReady-IsGuarded t k.0 (inr (draws _ drawn))
  ]
  stored-IsGuarded s t active e g edge k =
      let token = kept_token s t k.0 (had_token s active e refl g) in
      record {
        tokened = inr token;
        ready = elim (k.1) [ inl quiet ↦ inl quiet | inr may ↦ inr (may, token) ];
      }
  stored-IsGuarded s t retrying e g edge k =
      NotReady-IsGuarded t k.0 (inr (kept_token s t k.1 (had_token s retrying e refl g)))
  stored-IsGuarded s t unset e g edge k =
      unwatched-IsGuarded t k (ground (arith, edge-has_debugger edge))
  stored-IsGuarded s t pending e g edge k =
      unwatched-IsGuarded t k (ground (arith, edge-has_debugger edge))
  stored-IsGuarded s t terminating e g edge k =
      unwatched-IsGuarded t k (ground (arith, edge-has_debugger edge))
  stored-IsGuarded s t completed e g edge k =
      unwatched-IsGuarded t k (ground (arith, edge-has_debugger edge))
  stored-IsGuarded s t failed e g edge k =
      unwatched-IsGuarded t k (ground (arith, edge-has_debugger edge))
  stored-IsGuarded s t (other text) e g edge k =
      unwatched-IsGuarded t k (ground (arith, edge-has_debugger edge))

  pub run-IsGuarded :
      (s t : DebugSession)
      → KeepsStatus env
      → IsCanonical s.status.phase
      → IsGuarded D s
      → Memᴰ (updated_status t) (reconcile_session env s []).1
      → IsGuarded D t
  unfolding reconcile_session
  run-IsGuarded s t keeps c g m =
      stored-IsGuarded s t s.status.phase refl g (stored-Follows env s t keeps c m) (
        All-mem (OnUpdate (Keeps env s.status.phase s)) _ _
          (run-Keeps D env keeps s g s.status.phase c refl) m)

-- A token is drawn in the runs if it is drawn in the surroundings of one of them.
abbrev pub IsDrawnIn : {s t : DebugSession} → Run s t → String → Type 0
IsDrawnIn start token = ⊥
IsDrawnIn (step env keeps m r) token = IsDrawn env token ⊎ IsDrawnIn r token

after_first : {A B C : Type 0} → (A ⊎ B) ⊎ C → A ⊎ (B ⊎ C)
after_first (inl (inl a)) = inl a
after_first (inl (inr b)) = inr (inl b)
after_first (inr c) = inr (inr c)

-- Call a session guarded, for a property of tokens, if one that is Active or Retrying has a token
-- with the property, and one that is ready is Active or Failed and has such a token. From a session
-- that is guarded for some property, in a phase that a stored text stands for, any number of runs
-- leads to a session that is guarded for this: the token has the property, or is the hexadecimal
-- text of 32 random bytes that the surroundings of one of these runs give when they are asked for
-- them. This holds whatever the cluster answers, where a successful status update keeps the status
-- that it is sent.
pub Run-IsGuarded :
    {s t : DebugSession} (D : String → Type 0)
    → IsCanonical s.status.phase
    → IsGuarded D s
    → (r : Run s t) → IsGuarded (λ token. D token ⊎ IsDrawnIn r token) t
Run-IsGuarded {s} D c g start = IsGuarded-map (λ token d. inl d) s g
Run-IsGuarded {s} {t} D c g (step env {t = u} keeps m r) =
    let E : String → Type 0 = λ token. D token ⊎ IsDrawn env token in
    let edge = stored-Follows env s u keeps c m in
    let g' : IsGuarded E u =
      run-IsGuarded E env (λ token d. inr d) s u keeps c (IsGuarded-map (λ token d. inl d) s g) m in
    IsGuarded-map (λ token d. after_first d) t
      (Run-IsGuarded E (⟶-IsCanonical edge) (record { tokened = g'.tokened; ready = g'.ready }) r)
