-- ===== src/Proxy/Server.antt =====
-- `ServeHTTP` and `stream` of internal/proxy/server.go. The query is the function `q.Get` of the
-- request; the list of sessions, the upgrade to a WebSocket and the streaming are outside.
pub mod Access
pub mod Token
use kube_debug_sess.Prelude.{
  ℕ, String, Bool, true, false, not, ◌&&◌, ◌||◌, Option, none, some, List, [], ◌∷◌, ◌<>◌, ◌==s◌,
  if◌then◌else◌,
}
use kube_debug_sess.Api.{DebugSession}
use kube_debug_sess.Kube.{ApiError, Fallible, ok, err}
use kube_debug_sess.Proxy.Text.{split_space, equal_fold, trim_prefix}
use kube_debug_sess.Proxy.Connection.{TerminalSize}

pub record HttpRequest : Type 0 where
  pub path : String
  pub query : String → String
  pub authorization : String

-- The request to the API server that `stream` builds, and the size that it puts into the queue.
pub record AttachRequest : Type 0 where
  pub pod : String
  pub namespace : String
  pub container : String
  pub stdin : String
  pub stdout : String
  pub stderr : String
  pub tty : String
  pub terminal_size : TerminalSize

-- `websocket.Upgrader`, with the fields that the code sets.
pub record Upgrader : Type 0 where
  check_origin : HttpRequest → Bool
  enable_compression : Bool

unfoldable pub upgrader : Upgrader
upgrader = record { check_origin = λ r. true; enable_compression = false }

-- What the server asks of its surroundings while it handles one request. `executor` is
-- `remotecommand.NewSPDYExecutor`, `streaming` the error of `StreamWithContext`, if any.
pub record ProxyEnv : Type 0 where
  pub sessions : Fallible ApiError (List DebugSession)
  pub upgrade : Upgrader → Fallible String (Unit {0})
  pub executor : AttachRequest → Fallible String (Unit {0})
  pub streaming : AttachRequest → Option String

-- `upgrade_failed`: the upgrader has answered. `attached`: the stream ran, or failed with a text
-- that is sent in a close message.
pub data Response : Type 0 where
  responded : ℕ → String → Response
  upgrade_failed : Response
  attached : AttachRequest → Option String → Response

unfoldable pub attach_request : String → String → String → AttachRequest
attach_request ns pod_name container_name = record {
  pod = pod_name;
  namespace = ns;
  container = container_name;
  stdin = "true";
  stdout = "true";
  stderr = "true";
  tty = "true";
  terminal_size = record { width = 120; height = 40 };
}

-- The loop over the sessions.
unfoldable pub find_session : List DebugSession → String → Option DebugSession
find_session [] uid = none
find_session (s ∷ rest) uid = if s.uid ==s uid then some s else find_session rest uid

-- The token of `tokenParts`: two parts, the first of them "bearer".
unfoldable pub bearer_token : List String → Option String
bearer_token (scheme ∷ token ∷ []) = if equal_fold scheme "bearer" then some token else none
bearer_token _ = none

-- `debugSession.Status.ReadyForAttach`, and the token is the session's.
unfoldable pub authorizes : DebugSession → String → Bool
authorizes s token = s.status.ready_for_attach && s.status.one_time_token ==s token

module _ (env : ProxyEnv) where
  unfoldable pub stream : String → String → String → Option String
  stream ns pod_name container_name =
      let request = attach_request ns pod_name container_name in
      elim (env.executor request) [
        | err e ↦ some ("failed to create SPDY executor: " <> e)
        | ok _ ↦ env.streaming request
      ]

  -- Once the caller is known.
  unfoldable pub attach : String → String → String → Response
  attach ns pod_name container_name = elim (env.upgrade upgrader) [
    | err e ↦ upgrade_failed
    | ok _ ↦
        attached (attach_request ns pod_name container_name) (stream ns pod_name container_name)
  ]

  -- With the token and the sessions at hand.
  unfoldable pub authorize : String → String → String → String → List DebugSession → Response
  authorize ns pod_name container_name token sessions =
      elim (find_session sessions (trim_prefix container_name "debugger-")) [
        | none ↦ responded 404 "Debug session not found"
        | some s ↦
            if authorizes s token
            then attach ns pod_name container_name
            else responded 401 "Unauthorized: Invalid or expired token"
      ]

  unfoldable pub identify : String → String → String → String → Response
  identify ns pod_name container_name authorization =
      elim (bearer_token (split_space authorization)) [
        | none ↦ responded 401 "Invalid Authorization header"
        | some token ↦ elim (env.sessions) [
          | err e ↦ responded 500 "Internal Server Error"
          | ok sessions ↦ authorize ns pod_name container_name token sessions
        ]
      ]

  unfoldable pub serve_http : HttpRequest → Response
  serve_http r =
      let ns = r.query "ns" in
      let pod_name = r.query "pod" in
      let container_name = r.query "container" in
      if not (r.path ==s "/attach")
      then responded 200 "OK"
      else if ns ==s "" || pod_name ==s "" || container_name ==s ""
      then responded 400 "Missing required query parameters"
      else identify ns pod_name container_name r.authorization
