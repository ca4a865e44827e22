-- ===== src/Tests/Proxies.antt =====
-- Requests to the proxy, and the reads of its connection.
use kube_debug_sess.Prelude.{◌≡◌, refl, none, [], ◌∷◌, ◌++◌}
use kube_debug_sess.Api.{DebugSession}
use kube_debug_sess.Api.SessionPhase.{active}
use kube_debug_sess.Proxy.Text.{split_space, equal_fold, trim_prefix}
use kube_debug_sess.Proxy.Connection.{WsConn}
use kube_debug_sess.Proxy.Connection.Laws.{remaining, read_all, read_all-remaining}
use kube_debug_sess.Proxy.Server.{
  AttachRequest, attached, attach_request, find_session, bearer_token, authorizes, attach,
  authorize, identify, stream, serve_http,
}
use kube_debug_sess.Proxy.Server.Access.{IsAuthorized, IsEntitled, serve_http_sound}
use kube_debug_sess.Tests.Samples.{in_phase, proxy, attach_to_web}

abbrev to_web : AttachRequest
to_web = attach_request "shop" "web" "debugger-7"

web-attached : serve_http proxy attach_to_web ≡ attached to_web none
unfolding serve_http identify bearer_token split_space equal_fold authorize find_session trim_prefix
    authorizes attach stream
web-attached = refl

serve_http_sound_example :
    (s : DebugSession) × IsEntitled proxy attach_to_web s
    × (to_web.namespace ≡ "shop")
    × (to_web.pod ≡ "web")
    × (to_web.container ≡ "debugger-7")
serve_http_sound_example = serve_http_sound proxy attach_to_web to_web none web-attached

web-IsAuthorized : IsAuthorized proxy attach_to_web (in_phase active)
unfolding find_session trim_prefix bearer_token split_space equal_fold
web-IsAuthorized = record {
  sessions = in_phase active ∷ [];
  listed = refl;
  on_path = refl;
  has_ns = λ e. cc;
  has_pod = λ e. cc;
  has_container = λ e. cc;
  found = refl;
  ready = refl;
  token = refl;
}

abbrev two_messages : WsConn
two_messages = record { read_buffer = []; incoming = (1 ∷ 2 ∷ 3 ∷ []) ∷ (4 ∷ []) ∷ [] }

read_all-remaining_example :
    (read_all (2 ∷ 2 ∷ []) two_messages).0 ++ remaining (read_all (2 ∷ 2 ∷ []) two_messages).1
    ≡ 1 ∷ 2 ∷ 3 ∷ 4 ∷ []
read_all-remaining_example = read_all-remaining (2 ∷ 2 ∷ []) two_messages
