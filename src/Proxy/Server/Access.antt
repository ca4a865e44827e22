-- ===== src/Proxy/Server/Access.antt =====
-- Who gets through to a container.
use kube_debug_sess.Prelude.{
  ◌≡◌, sym, ap, ◌∙◌, ◌≢◌, ◌⊎◌, ◌<>◌, String, true, false, List, [], ◌∷◌, Option, some, arith,
  eq_iff, ◌==s◌, Bool-cases, Option-cases, inl, inr,
}
use mathlib.Core.Bool.{false≢true}
use mathlib.Core.List.{Memᴰ}
use kube_debug_sess.Api.{DebugSession}
use kube_debug_sess.Kube.{Fallible-cases, ok}
use kube_debug_sess.Proxy.Text.{split_space, equal_fold, trim_prefix}
use kube_debug_sess.Proxy.Text.Laws.{split_space_join, trim_prefix_cases}
use kube_debug_sess.Proxy.Server.{
  upgrader, HttpRequest, AttachRequest, ProxyEnv, attached, attach_request, find_session,
  bearer_token, authorizes, stream, attach, authorize, identify, serve_http,
}

-- What a request shows before it is attached to the container: the path, the three parameters, a
-- bearer token, and a listed session with the UID in the container's name that is ready and has
-- this token.
pub record IsAuthorized (env : ProxyEnv) (r : HttpRequest) (s : DebugSession) : Type 0 where
  pub sessions : List DebugSession
  pub listed : env.sessions ≡ ok sessions
  pub on_path : r.path ≡ "/attach"
  pub has_ns : r.query "ns" ≢ ""
  pub has_pod : r.query "pod" ≢ ""
  pub has_container : r.query "container" ≢ ""
  pub found : find_session sessions (trim_prefix (r.query "container") "debugger-") ≡ some s
  pub ready : s.status.ready_for_attach ≡ true
  pub token : bearer_token (split_space r.authorization) ≡ some s.status.one_time_token

-- The session that is found is one of the list, and has the UID that was looked for.
find_session-mem :
    (l : List DebugSession) (uid : String) (s : DebugSession)
    → find_session l uid ≡ some s
    → Memᴰ s l × (s.uid ≡ uid)
unfolding find_session
find_session-mem [] uid s h = absurd (cc h)
find_session-mem (t ∷ l) uid s h = elim (Bool-cases (t.uid ==s uid)) [
  | inl e ↦
      let same : t ≡ s = ground arith in
      (Memᴰ.head (sym same), ap (λ x. x.uid) (sym same) ∙ (eq_iff t.uid uid).0 e)
  | inr e ↦ let (m, q) = find_session-mem l uid s (rw e at h) in (Memᴰ.tail m, q)
]

bearer_token_parts :
    (parts : List String) (token : String)
    → bearer_token parts ≡ some token
    → (scheme : String) × (parts ≡ scheme ∷ token ∷ []) × (equal_fold scheme "bearer" ≡ true)
unfolding bearer_token
bearer_token_parts [] token h = absurd (cc h)
bearer_token_parts (a ∷ []) token h = absurd (cc h)
bearer_token_parts (a ∷ b ∷ []) token h = elim (Bool-cases (equal_fold a "bearer")) [
  | inl e ↦ let same : b ≡ token = ground arith in (a, ap (λ t. a ∷ t ∷ []) same, e)
  | inr e ↦ absurd (ground arith)
]
bearer_token_parts (a ∷ b ∷ c ∷ l) token h = absurd (cc h)

module _ (env : ProxyEnv) (request : AttachRequest) (o : Option String) where
  authorize_inversion :
      (ns pod container token : String) (l : List DebugSession)
      → authorize env ns pod container token l ≡ attached request o
      → (s : DebugSession) × (find_session l (trim_prefix container "debugger-") ≡ some s)
        × (authorizes s token ≡ true)
        × (request ≡ attach_request ns pod container)
  unfolding authorize attach
  authorize_inversion ns pod container token l h =
      elim (Option-cases (find_session l (trim_prefix container "debugger-"))) [
        | inl e ↦ absurd (ground arith)
        | inr (s, e) ↦ (s, e, ground arith, ground arith)
      ]

  identify_inversion :
      (ns pod container authorization : String)
      → identify env ns pod container authorization ≡ attached request o
      → (token : String) × (l : List DebugSession) × (bearer_token (split_space authorization)
          ≡ some token)
        × (env.sessions ≡ ok l)
        × (authorize env ns pod container token l ≡ attached request o)
  unfolding identify
  identify_inversion ns pod container authorization h =
      elim (Option-cases (bearer_token (split_space authorization))) [
        | inl e ↦ absurd (ground arith)
        | inr (token, e) ↦ elim (Fallible-cases env.sessions) [
          | inl (l, q) ↦ (token, l, e, q, ground arith)
          | inr (x, q) ↦ absurd (ground arith)
        ]
      ]

  serve_http_inversion :
      (r : HttpRequest)
      → serve_http env r ≡ attached request o
      → ((r.path ==s "/attach") ≡ true)
        × ((r.query "ns" ==s "") ≡ false)
        × ((r.query "pod" ==s "") ≡ false)
        × ((r.query "container" ==s "") ≡ false)
        × (identify env (r.query "ns") (r.query "pod") (r.query "container") r.authorization
            ≡ attached request o)
  unfolding serve_http
  serve_http_inversion r h = ground arith

ne_of_test : (s t : String) → (s ==s t) ≡ false → s ≢ t
ne_of_test s t h e = false≢true (sym h ∙ (eq_iff s t).1 e)

token_of_test :
    (s : DebugSession) (token : String)
    → authorizes s token ≡ true
    → (s.status.ready_for_attach ≡ true) × (token ≡ s.status.one_time_token)
unfolding authorizes
token_of_test s token h = ground (arith, eq_iff s.status.one_time_token token)

-- What the code has tested of a request that is attached.
serve_http-IsAuthorized :
    (env : ProxyEnv) (r : HttpRequest) (request : AttachRequest) (o : Option String)
    → serve_http env r ≡ attached request o
    → (s : DebugSession) × IsAuthorized env r s
      × (request ≡ attach_request (r.query "ns") (r.query "pod") (r.query "container"))
serve_http-IsAuthorized env r request o h =
    let (path, ns, pod, container, h₁) = serve_http_inversion env request o r h in
    let (token, l, bearer, listed, h₂) = identify_inversion env request o _ _ _ _ h₁ in
    let (s, found, authorized, target) = authorize_inversion env request o _ _ _ token l h₂ in
    let (ready, same) = token_of_test s token authorized in
    (
      s,
      record {
        sessions = l;
        listed = listed;
        on_path = (eq_iff _ _).0 path;
        has_ns = ne_of_test _ _ ns;
        has_pod = ne_of_test _ _ pod;
        has_container = ne_of_test _ _ container;
        found = found;
        ready = ready;
        token = bearer ∙ ap some same;
      },
      target,
    )

-- The container's name is the UID after the prefix `debugger-`, or the UID alone.
abbrev pub Names : String → String → Type 0
Names container uid = (container ≡ "debugger-" <> uid) ⊎ (container ≡ uid)

-- The header is a scheme, one space and the token; the scheme is `bearer` in any case of letters.
abbrev pub Bears : String → String → Type 0
Bears header token =
    (scheme : String) × (header ≡ scheme <> (" " <> token)) × (equal_fold scheme "bearer" ≡ true)

-- What entitles a request to be attached: the path, the parameters, and a listed session with the
-- UID in the container's name, which is ready and whose token the header bears.
pub record IsEntitled (env : ProxyEnv) (r : HttpRequest) (s : DebugSession) : Type 0 where
  pub sessions : List DebugSession
  pub listed : env.sessions ≡ ok sessions
  pub member : Memᴰ s sessions
  pub named : Names (r.query "container") s.uid
  pub on_path : r.path ≡ "/attach"
  pub has_ns : r.query "ns" ≢ ""
  pub has_pod : r.query "pod" ≢ ""
  pub has_container : r.query "container" ≢ ""
  pub ready : s.status.ready_for_attach ≡ true
  pub bears : Bears r.authorization s.status.one_time_token

bearer_token-Bears :
    (header token : String) → bearer_token (split_space header) ≡ some token → Bears header token
bearer_token-Bears header token h =
    let (scheme, parts, folds) = bearer_token_parts (split_space header) token h in
    (scheme, split_space_join header scheme token parts, folds)

-- A request is attached only if it is entitled to it: it is for /attach with a namespace, a pod and
-- a container, the proxy lists a session whose UID is the container's name, with the prefix
-- `debugger-` or without, this session is ready, and the header is the scheme `bearer`, in any case
-- of letters, one space and the session's token. It is attached to the namespace, the pod and the
-- container that it names.
pub serve_http_sound :
    (env : ProxyEnv) (r : HttpRequest) (request : AttachRequest) (o : Option String)
    → serve_http env r ≡ attached request o
    → (s : DebugSession) × IsEntitled env r s
      × (request.namespace ≡ r.query "ns")
      × (request.pod ≡ r.query "pod")
      × (request.container ≡ r.query "container")
unfolding attach_request
serve_http_sound env r request o h =
    let (s, a, target) = serve_http-IsAuthorized env r request o h in
    let (m, uid) = find_session-mem a.sessions _ s a.found in
    (
      s,
      record {
        sessions = a.sessions;
        listed = a.listed;
        member = m;
        named = elim (trim_prefix_cases (r.query "container") "debugger-") [
          | inl e ↦ inl (e ∙ ap (λ u. "debugger-" <> u) (sym uid))
          | inr e ↦ inr (sym e ∙ sym uid)
        ];
        on_path = a.on_path;
        has_ns = a.has_ns;
        has_pod = a.has_pod;
        has_container = a.has_container;
        ready = a.ready;
        bears = bearer_token-Bears r.authorization s.status.one_time_token a.token;
      },
      ap (λ x. x.namespace) target,
      ap (λ x. x.pod) target,
      ap (λ x. x.container) target,
    )

-- An authorised request is attached, once the connection is upgraded.
pub serve_http_complete :
    (env : ProxyEnv) (r : HttpRequest) (s : DebugSession)
    → IsAuthorized env r s
    → env.upgrade upgrader ≡ ok tt
    → serve_http env r
      ≡ attached
          (attach_request (r.query "ns") (r.query "pod") (r.query "container"))
          (stream env (r.query "ns") (r.query "pod") (r.query "container"))
unfolding serve_http identify authorize attach authorizes
serve_http_complete env r s a up = ground (
  arith,
  eq_iff r.path "/attach",
  eq_iff (r.query "ns") "",
  eq_iff (r.query "pod") "",
  eq_iff (r.query "container") "",
  eq_iff s.status.one_time_token s.status.one_time_token,
)
