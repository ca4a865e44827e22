-- ===== src/System/Access.antt =====
-- A user reaches the debugger of a session that the controller has set up.
use kube_debug_sess.Prelude.{◌≡◌, ◌≢◌, sym, ap, ◌∙◌, ◌<>◌, true, some, List}
use kube_debug_sess.Api.{DebugSession}
use kube_debug_sess.Kube.{ContainerStatus, Pod, ok}
use kube_debug_sess.Cluster.{Env}
use kube_debug_sess.SessionPhases.Update.{debugger_name}
use kube_debug_sess.Reconcilers.Injecting.Token.{fill}
use kube_debug_sess.Proxy.Server.{
  upgrader, HttpRequest, ProxyEnv, attach_request, attached, find_session, stream, serve_http,
}
use kube_debug_sess.Proxy.Server.Token.{serve_http_token}
use kube_debug_sess.System.Attach.{IsCreated}
use kube_debug_sess.System.Store.{after}
use kube_debug_sess.System.Lifecycle.{IsFit, Debugs, after_three, after_four, uid-after_four}
use kube_debug_sess.System.Lifecycle.Stages.{Answers}

-- Of a created session whose target is fit for a debugger: after three runs in a cluster that
-- answers every call, and one in a cluster in which its debugger runs, a request for /attach that
-- names a namespace, a pod and the debugger's container, with the session's token as its bearer
-- token, is attached by a proxy that lists the session first of its UID, once the connection is
-- upgraded.
pub serve_http-set_up :
    (before during : Env) (pod running_pod : Pod) (s : DebugSession) (running : ContainerStatus)
    (env : ProxyEnv) (r : HttpRequest) (l : List DebugSession)
    → Answers before pod
    → Answers during running_pod
    → IsCreated s
    → IsFit s pod
    → Debugs running_pod (debugger_name s) running
    → running.running ≡ true
    → env.sessions ≡ ok l
    → find_session l s.uid ≡ some (after during (after_three before s))
    → env.upgrade upgrader ≡ ok tt
    → r.path ≡ "/attach"
    → r.query "ns" ≢ ""
    → r.query "pod" ≢ ""
    → r.query "container" ≡ debugger_name s
    → r.authorization
      ≡ "Bearer" <> (" " <> (after during (after_three before s)).status.one_time_token)
    → serve_http env r
      ≡ attached
          (attach_request (r.query "ns") (r.query "pod") (r.query "container"))
          (stream env (r.query "ns") (r.query "pod") (r.query "container"))
serve_http-set_up before during pod running_pod s running env r l a₀ a₁ created fit d runs listed
      found up path ns pd container header =
    let s₃ : DebugSession = after_three before s in
    let s₄ : DebugSession = after during s₃ in
    let (watched, ready, token) =
      after_four before during pod running_pod s running a₀ a₁ created fit d runs in
    let same = uid-after_four before during s in
    serve_http_token env r s₄ l (fill 32 token.1.source) listed (ap (find_session l) same ∙ found)
      ready token.1.text path ns pd (container ∙ ap (λ u. "debugger-" <> u) (sym same)) header up
