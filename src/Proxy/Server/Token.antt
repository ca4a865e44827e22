-- ===== src/Proxy/Server/Token.antt =====
-- The way of a token: what the controller stores and tells the user is what the proxy accepts.
use Prim.Native.String.append
use mathlib.Core.Path.{subst}
use kube_debug_sess.Prelude.{
  ℕ, ◌≡◌, sym, ◌≢◌, ◌∙◌, String, ◌<>◌, true, List, [], ◌∷◌, some, arith, ◌/◌, ◌%◌,
}
use kube_debug_sess.Prelude.Texts.{Lacks-append, IsWithout, if-IsWithout, word, digit-IsWithout}
use kube_debug_sess.Api.{DebugSession}
use kube_debug_sess.Kube.{ok}
use kube_debug_sess.SessionPhases.Update.{debugger_name}
use kube_debug_sess.Reconcilers.Injecting.Token.{hex_digit, encode_to_string}
use kube_debug_sess.Proxy.Text.{split_space, equal_fold}
use kube_debug_sess.Proxy.Text.Laws.{HasNoSpace, split_space-append, trim_prefix-append}
use kube_debug_sess.Proxy.Server.{
  upgrader, HttpRequest, ProxyEnv, attached, attach_request, find_session, bearer_token, stream,
  serve_http,
}
use kube_debug_sess.Proxy.Server.Access.{serve_http_complete}

hex_digit-IsWithout : (d : ℕ) → IsWithout b' ' (hex_digit d)
unfolding hex_digit
hex_digit-IsWithout d = if-IsWithout b' ' _ (digit-IsWithout b' ' d (omega arith)) (
    if-IsWithout b' ' _ (word b' ' "a" (omega arith)) (
      if-IsWithout b' ' _ (word b' ' "b" (omega arith)) (
        if-IsWithout b' ' _ (word b' ' "c" (omega arith)) (
          if-IsWithout b' ' _ (word b' ' "d" (omega arith))
            (if-IsWithout b' ' _ (word b' ' "e" (omega arith)) (word b' ' "f" (omega arith)))))))

encode_to_string-HasNoSpace : (bytes : List ℕ) → HasNoSpace (encode_to_string bytes)
unfolding encode_to_string
encode_to_string-HasNoSpace [] = tt
encode_to_string-HasNoSpace (b ∷ bytes) =
    Lacks-append b' ' (hex_digit (b / 16)) _ (hex_digit-IsWithout (b / 16)).lacks (
      Lacks-append b' ' (hex_digit (b % 16)) _ (hex_digit-IsWithout (b % 16)).lacks
        (encode_to_string-HasNoSpace bytes))

bearer_token-header :
    (token : String)
    → HasNoSpace token
    → bearer_token (split_space ("Bearer" <> (" " <> token))) ≡ some token
unfolding bearer_token equal_fold
bearer_token-header token h = rw (split_space-append "Bearer" token (omega arith) h)

pub debugger_name-ne-nil : (s : DebugSession) → debugger_name s ≢ ""
debugger_name-ne-nil s e = cc (sym (append.cons "d" "ebugger-" s.uid) ∙ e)

-- A session that is listed first of its UID, ready, and holds the hexadecimal token of some bytes
-- is reached over /attach with any namespace and pod, the session's container name and the header
-- "Bearer" with the token, once the connection is upgraded.
pub serve_http_token :
    (env : ProxyEnv) (r : HttpRequest) (s : DebugSession) (l : List DebugSession) (bytes : List ℕ)
    → env.sessions ≡ ok l
    → find_session l s.uid ≡ some s
    → s.status.ready_for_attach ≡ true
    → s.status.one_time_token ≡ encode_to_string bytes
    → r.path ≡ "/attach"
    → r.query "ns" ≢ ""
    → r.query "pod" ≢ ""
    → r.query "container" ≡ debugger_name s
    → r.authorization ≡ "Bearer" <> (" " <> s.status.one_time_token)
    → env.upgrade upgrader ≡ ok tt
    → serve_http env r
      ≡ attached
          (attach_request (r.query "ns") (r.query "pod") (r.query "container"))
          (stream env (r.query "ns") (r.query "pod") (r.query "container"))
serve_http_token env r s l bytes listed found ready token path ns pod container header up =
    serve_http_complete env r s
      (record {
        sessions = l;
        listed = listed;
        on_path = path;
        has_ns = ns;
        has_pod = pod;
        has_container = λ e. debugger_name-ne-nil s (sym container ∙ e);
        found = rw (container, trim_prefix-append "debugger-" s.uid) found;
        ready = ready;
        token = rw header (
            bearer_token-header s.status.one_time_token
              (subst HasNoSpace (sym token) (encode_to_string-HasNoSpace bytes)));
      })
      up
