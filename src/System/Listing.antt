-- ===== src/System/Listing.antt =====
-- The order in which the API server lists the sessions does not matter to the proxy.
use kube_debug_sess.Prelude.{
  ◌≡◌, ◌≢◌, refl, sym, ap, ◌∙◌, inl, inr, Bool-cases, Option-cases, not, ◌||◌, String, Option, none,
  some, List, ◌∷◌, All, ◌==s◌, if◌then◌else◌, eq_iff,
}
use mathlib.Core.Path.{subst}
use mathlib.Core.List.Permᴰ.{Permᴰ, nil, cons, swap, trans}
use kube_debug_sess.Api.{DebugSession}
use kube_debug_sess.Kube.{ok}
use kube_debug_sess.Proxy.Text.{split_space, trim_prefix}
use kube_debug_sess.Proxy.Server.{
  HttpRequest, ProxyEnv, responded, find_session, bearer_token, authorizes, stream, attach,
  authorize, identify, serve_http,
}
use kube_debug_sess.System.Population.{Reached}
use kube_debug_sess.System.Population.Laws.{Distinct, Reached-IsOrdered}

All-Permᴰ : (P : DebugSession → Type 0) {l l' : List DebugSession} → Permᴰ l l' → All P l → All P l'
All-Permᴰ P nil h = tt
All-Permᴰ P (cons e p) (h, t) = (subst P e h, All-Permᴰ P p t)
All-Permᴰ P (swap e e') (a, (b, t)) = (subst P e' b, (subst P e a, t))
All-Permᴰ P (trans p q) h = All-Permᴰ P q (All-Permᴰ P p h)

Distinct-Permᴰ : {l l' : List DebugSession} → Permᴰ l l' → Distinct l → Distinct l'
Distinct-Permᴰ nil d = tt
Distinct-Permᴰ (cons {b = b} {l₁ = l₁} e p) (a, d) = (
  All-Permᴰ (λ t. t.uid ≢ b.uid) p
      (subst (λ (x : DebugSession). All (λ (t : DebugSession). t.uid ≢ x.uid) l₁) e a),
  Distinct-Permᴰ p d,
)
Distinct-Permᴰ (swap {a} {b} {a'} {b'} {l} e e') ((ne, a_l), (b_l, d)) =
    subst (λ x. Distinct (x ∷ b' ∷ l)) e'
      (subst (λ x. Distinct (b ∷ x ∷ l)) e ((λ q. ne (sym q), b_l), (a_l, d)))
Distinct-Permᴰ (trans p q) d = Distinct-Permᴰ q (Distinct-Permᴰ p d)

-- One step of the search.
abbrev or_else : String → DebugSession → Option DebugSession → Option DebugSession
or_else uid s rest = if s.uid ==s uid then some s else rest

or_else_swap :
    (uid : String) (a b : DebugSession) (o : Option DebugSession)
    → b.uid ≢ a.uid
    → or_else uid a (or_else uid b o) ≡ or_else uid b (or_else uid a o)
or_else_swap uid a b o ne = elim (Bool-cases (a.uid ==s uid)) [
  | inr e ↦ rw e refl
  | inl e ↦ elim (Bool-cases (b.uid ==s uid)) [
    | inr q ↦ rw q refl
    | inl q ↦ absurd (ne ((eq_iff b.uid uid).0 q ∙ sym ((eq_iff a.uid uid).0 e)))
  ]
]

find_session-Permᴰ :
    (uid : String) {l l' : List DebugSession}
    → Permᴰ l l'
    → Distinct l
    → find_session l uid ≡ find_session l' uid
unfolding find_session
find_session-Permᴰ uid nil d = refl
find_session-Permᴰ uid (cons {a} {b} {l₁} e p) (_, d) =
    ap (λ x. or_else uid x (find_session l₁ uid)) e
    ∙ ap (or_else uid b) (find_session-Permᴰ uid p d)
find_session-Permᴰ uid (swap {a} {b} {a'} {b'} {l} e e') ((ne, _), _) =
    or_else_swap uid a b (find_session l uid) ne
    ∙ ap (λ x. or_else uid x (or_else uid a (find_session l uid))) e'
    ∙ ap (λ x. or_else uid a' (or_else uid x (find_session l uid))) e
find_session-Permᴰ uid (trans p q) d =
    find_session-Permᴰ uid p d ∙ find_session-Permᴰ uid q (Distinct-Permᴰ p d)

-- A proxy that lists these sessions.
abbrev pub listing : ProxyEnv → List DebugSession → ProxyEnv
listing env l = record env { sessions = ok l }

module _ (env : ProxyEnv) (ns pod container : String) (l l' : List DebugSession)
    (same : find_session l (trim_prefix container "debugger-")
      ≡ find_session l' (trim_prefix container "debugger-")) where
  authorize_same :
      (token : String)
      → authorize (listing env l) ns pod container token l
        ≡ authorize (listing env l') ns pod container token l'
  unfolding authorize attach stream
  authorize_same token =
      ap
        (λ o. elim o [
          | none ↦ responded 404 "Debug session not found"
          | some s ↦
              if authorizes s token
              then attach env ns pod container
              else responded 401 "Unauthorized: Invalid or expired token"
        ])
        same

  identify_same :
      (authorization : String)
      → identify (listing env l) ns pod container authorization
        ≡ identify (listing env l') ns pod container authorization
  unfolding identify
  identify_same authorization = elim (Option-cases (bearer_token (split_space authorization))) [
    | inl e ↦ rw (e, identify) refl
    | inr (token, e) ↦ rw (e, identify) (authorize_same token)
  ]

-- However users and the controller have changed the sessions of a cluster: a proxy answers every
-- request in the same way in whatever order the API server lists them.
pub Reached-Permᴰ :
    (env : ProxyEnv) (r : HttpRequest) {l l' : List DebugSession}
    → Reached l
    → Permᴰ l l'
    → serve_http (listing env l) r ≡ serve_http (listing env l') r
unfolding serve_http
Reached-Permᴰ env r reached p =
    let same =
      find_session-Permᴰ (trim_prefix (r.query "container") "debugger-") p
        (Reached-IsOrdered reached).distinct in
    ap
      (λ x.
        if not (r.path ==s "/attach")
        then responded 200 "OK"
        else if r.query "ns" ==s "" || r.query "pod" ==s "" || r.query "container" ==s ""
        then responded 400 "Missing required query parameters"
        else x)
      (identify_same env (r.query "ns") (r.query "pod") (r.query "container") _ _ same
        r.authorization)
