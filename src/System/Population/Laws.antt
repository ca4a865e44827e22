-- ===== src/System/Population/Laws.antt =====
-- What holds of the sessions of a cluster however they change, and who reaches a debugger there.
use kube_debug_sess.Prelude.{
  ◌≡◌, refl, sym, ◌≢◌, ◌⊎◌, inl, inr, String, Option, List, [], ◌∷◌, All, All-mem, All-implies,
}
use mathlib.Core.Path.{subst}
use mathlib.Core.List.{Memᴰ}
use kube_debug_sess.Api.{DebugSessionSpec, DebugSession}
use kube_debug_sess.Api.SessionPhase.{active, failed}
use kube_debug_sess.Kube.{ok}
use kube_debug_sess.Cluster.{updated_status, Env}
use kube_debug_sess.Updates.{KeepsStatus}
use kube_debug_sess.Reconcilers.Injecting.Hex.{IsDrawn}
use kube_debug_sess.Controller.{reconcile_session}
use kube_debug_sess.Controller.Runs.{IsCanonical, persist, stored-Follows, ⟶-IsCanonical}
use kube_debug_sess.Proxy.Server.{HttpRequest, AttachRequest, ProxyEnv, attached, serve_http}
use kube_debug_sess.Proxy.Server.Access.{Names, Bears, serve_http_sound}
use kube_debug_sess.System.Guarded.{IsGuarded, IsGuarded-map, run-IsGuarded}
use kube_debug_sess.System.Attach.{
  IsCreated, unset-IsCanonical, IsCreated-IsGuarded, may_be_ready_cases,
}
use kube_debug_sess.System.Population.{
  Inserted, first, later, Changes, creates, edits, removes, reconciles, Reached, empty, changed,
}

-- What holds of each session, for a property of tokens.
pub record IsSound (D : String → Type 0) (s : DebugSession) : Type 0 where
  canonical : IsCanonical s.status.phase
  pub guarded : IsGuarded D s

abbrev pub Distinct : List DebugSession → Type 0
Distinct [] = Unit
Distinct (s ∷ l) = All (λ t. t.uid ≢ s.uid) l × Distinct l

module _ (P : DebugSession → Type 0) where
  All-Inserted :
      {s : DebugSession} {l l' : List DebugSession} → Inserted s l l' → P s → All P l → All P l'
  All-Inserted first p a = (p, a)
  All-Inserted (later i) p (q, a) = (q, All-Inserted i p a)

  All-removed :
      {s : DebugSession} {l l' : List DebugSession} → Inserted s l l' → All P l' → P s × All P l
  All-removed first a = a
  All-removed (later i) (q, a) = let (p, b) = All-removed i a in (p, (q, b))

Distinct-Inserted :
    {s : DebugSession} {l l' : List DebugSession}
    → Inserted s l l'
    → All (λ t. t.uid ≢ s.uid) l
    → Distinct l
    → Distinct l'
Distinct-Inserted first a d = (a, d)
Distinct-Inserted (later {x} i) (ne, a) (b, d) =
    (All-Inserted _ i (λ e. ne (sym e)) b, Distinct-Inserted i a d)

Distinct-removed :
    {s : DebugSession} {l l' : List DebugSession}
    → Inserted s l l'
    → Distinct l'
    → All (λ t. t.uid ≢ s.uid) l × Distinct l
Distinct-removed first d = d
Distinct-removed (later i) (b, d) =
    let (ne, b') = All-removed _ i b in
    let (a, d') = Distinct-removed i d in (((λ e. ne (sym e)), a), (b', d'))

created-IsSound : (D : String → Type 0) (s : DebugSession) → IsCreated s → IsSound D s
created-IsSound D s c = record {
  canonical = subst IsCanonical (sym c.phase) unset-IsCanonical;
  guarded = IsCreated-IsGuarded D s c;
}

-- An edit of the spec leaves the status.
edited-IsSound :
    (D : String → Type 0) (s : DebugSession) (spec : DebugSessionSpec)
    → IsSound D s
    → IsSound D (record s { spec = spec })
edited-IsSound D s spec h = record {
  canonical = h.canonical;
  guarded = record { tokened = h.guarded.tokened; ready = h.guarded.ready };
}

reconciled-IsSound :
    (D : String → Type 0) (env : Env) (s t : DebugSession)
    → ((token : String) → IsDrawn env token → D token)
    → KeepsStatus env
    → Memᴰ (updated_status t) (reconcile_session env s []).1
    → IsSound D s
    → IsSound D (persist s t)
reconciled-IsSound D env s t draws keeps m h =
    let g = run-IsGuarded D env draws s t keeps h.canonical h.guarded m in
    record {
      canonical = ⟶-IsCanonical (stored-Follows env s t keeps h.canonical m);
      guarded = record { tokened = g.tokened; ready = g.ready };
    }

-- The sessions of a population are sound, and their UIDs are distinct.
pub record IsOrdered (D : String → Type 0) (l : List DebugSession) : Type 0 where
  sound : All (IsSound D) l
  pub distinct : Distinct l

IsOrdered-map :
    (D D' : String → Type 0)
    → ((token : String) → D token → D' token)
    → (l : List DebugSession) → IsOrdered D l
    → IsOrdered D' l
IsOrdered-map D D' f l h = record {
  sound =
      All-implies (IsSound D) (IsSound D')
        (λ s p. record { canonical = p.canonical; guarded = IsGuarded-map f s p.guarded }) l
        h.sound;
  distinct = h.distinct;
}

replaced-IsOrdered :
    {l l' l'' : List DebugSession} (D : String → Type 0) (s t : DebugSession)
    → t.uid ≡ s.uid
    → (IsSound D s → IsSound D t)
    → Inserted s l l'
    → Inserted t l l''
    → IsOrdered D l'
    → IsOrdered D l''
replaced-IsOrdered {l} D s t same f i j h =
    let (p, a) = All-removed (IsSound D) i h.sound in
    let (ne, d) = Distinct-removed i h.distinct in
    record {
      sound = All-Inserted (IsSound D) j (f p) a;
      distinct = Distinct-Inserted j (subst (λ u. All (λ x. x.uid ≢ u) l) (sym same) ne) d;
    }

-- A token is drawn in a change if the change is a run in whose surroundings it is drawn.
abbrev IsDrawnBy : {l l' : List DebugSession} → Changes l l' → String → Type 0
IsDrawnBy (reconciles env s t keeps m i j) token = IsDrawn env token
IsDrawnBy _ token = ⊥

-- A token is drawn in the changes that lead to a population.
abbrev pub IsDrawnAmong : {l : List DebugSession} → Reached l → String → Type 0
IsDrawnAmong empty token = ⊥
IsDrawnAmong (changed r c) token = IsDrawnAmong r token ⊎ IsDrawnBy c token

Changes-IsOrdered :
    {l l' : List DebugSession} (D : String → Type 0)
    → IsOrdered D l
    → (c : Changes l l') → ((token : String) → IsDrawnBy c token → D token)
    → IsOrdered D l'
Changes-IsOrdered D h (creates s c new i) draws = record {
  sound = All-Inserted (IsSound D) i (created-IsSound D s c) h.sound;
  distinct = Distinct-Inserted i new h.distinct;
}
Changes-IsOrdered D h (edits s spec i j) draws =
    replaced-IsOrdered D s (record s { spec = spec }) refl (edited-IsSound D s spec) i j h
Changes-IsOrdered D h (removes s i) draws = record {
  sound = (All-removed (IsSound D) i h.sound).1;
  distinct = (Distinct-removed i h.distinct).1;
}
Changes-IsOrdered D h (reconciles env s t keeps m i j) draws =
    replaced-IsOrdered D s (persist s t) refl (reconciled-IsSound D env s t draws keeps m) i j h

pub Reached-IsOrdered : {l : List DebugSession} (r : Reached l) → IsOrdered (IsDrawnAmong r) l
Reached-IsOrdered empty = record { sound = tt; distinct = tt }
Reached-IsOrdered (changed {l} r c) =
    let D : String → Type 0 = λ token. IsDrawnAmong r token ⊎ IsDrawnBy c token in
    let before = IsOrdered-map (IsDrawnAmong r) D (λ token d. inl d) l (Reached-IsOrdered r) in
    Changes-IsOrdered D before c (λ token d. inr d)

-- No other session has the UID.
abbrev pub IsOnly : DebugSession → List DebugSession → Type 0
IsOnly s l = All (λ t. (t.uid ≢ s.uid) ⊎ (t ≡ s)) l

only_lem : (s : DebugSession) (l : List DebugSession) → Distinct l → Memᴰ s l → IsOnly s l
only_lem s [] d m = elim m [ ]
only_lem s (x ∷ l) (ne, d) (Memᴰ.head e) =
    (inr (sym e), subst (λ y. IsOnly y l) (sym e) (All-implies _ _ (λ t n. inl n) l ne))
only_lem s (x ∷ l) (ne, d) (Memᴰ.tail m) = (inl (λ e. All-mem _ l s ne m (sym e)), only_lem s l d m)

-- However users create, edit and delete sessions and the controller reconciles them, in any order
-- and whatever its surroundings answer, where a successful status update keeps the status that it
-- is sent: a request that a proxy attaches, which lists the sessions that are then there, bears the
-- token of a session whose UID is, after the prefix `debugger-` or as it stands, the container's
-- name; there is no other session with that UID, it is Active or Failed, and its token is the
-- hexadecimal text of 32 random bytes that the surroundings of one of these reconciliations give
-- when they are asked for them.
pub Reached-serve_http :
    (l : List DebugSession) (env : ProxyEnv) (r : HttpRequest) (request : AttachRequest)
    (o : Option String) (reached : Reached l)
    → env.sessions ≡ ok l
    → serve_http env r ≡ attached request o
    → (s : DebugSession) × Memᴰ s l
      × Names (r.query "container") s.uid
      × IsOnly s l
      × Bears r.authorization s.status.one_time_token
      × ((s.status.phase ≡ active) ⊎ (s.status.phase ≡ failed))
      × IsDrawnAmong reached s.status.one_time_token
Reached-serve_http l env r request o reached listed h =
    let (s, e, _, _, _) = serve_http_sound env r request o h in
    let ordered = Reached-IsOrdered reached in
    let same : e.sessions ≡ l = cc (e.listed, listed) in
    let m : Memᴰ s l = subst (Memᴰ s) same e.member in
    let g = (All-mem (IsSound (IsDrawnAmong reached)) l s ordered.sound m).guarded in
    elim (g.ready) [
      | inl quiet ↦ absurd (cc (e.ready, quiet))
      | inr (may, token) ↦ (
        s,
        m,
        e.named,
        only_lem s l ordered.distinct m,
        e.bears,
        may_be_ready_cases s.status.phase may,
        token,
      )
    ]
