-- ===== src/Tests/Orphaned.antt =====
-- A session whose pod is gone, and a user who still has its token.
use kube_debug_sess.Prelude.{◌≡◌, refl, ap, some, [], ◌∷◌}
use kube_debug_sess.Api.{DebugSession}
use kube_debug_sess.Api.SessionPhase.{active, failed}
use kube_debug_sess.Kube.{ok}
use kube_debug_sess.Controller.Runs.{start}
use kube_debug_sess.Proxy.Text.{split_space, equal_fold}
use kube_debug_sess.Proxy.Server.{
  ProxyEnv, attached, attach_request, find_session, bearer_token, stream, serve_http,
}
use kube_debug_sess.System.Store.{after, after-persist}
use kube_debug_sess.System.Orphans.{orphan-serve_http}
use kube_debug_sess.Tests.Samples.{in_phase, podless, not_found, proxy, attach_to_web}

abbrev orphan : DebugSession
orphan = after podless (in_phase active)

abbrev before_orphan : ProxyEnv
before_orphan = record proxy { sessions = ok (orphan ∷ []) }

orphan-found : find_session (orphan ∷ []) "7" ≡ some orphan
unfolding find_session
orphan-found = rw (ap (λ (s : DebugSession). s.uid) (after-persist podless (in_phase active))) refl

web_token : bearer_token (split_space attach_to_web.authorization) ≡ some "0f"
unfolding bearer_token split_space equal_fold
web_token = refl

orphan-serve_http_example :
    (orphan.status.phase ≡ failed)
    × (serve_http before_orphan attach_to_web
        ≡ attached
            (attach_request "shop" "web" "debugger-7")
            (stream before_orphan "shop" "web" "debugger-7"))
orphan-serve_http_example =
    orphan-serve_http podless (in_phase active) orphan not_found before_orphan attach_to_web
      (orphan ∷ []) refl refl refl refl (λ h u. refl) start refl orphan-found refl refl (λ e. cc)
      (λ e. cc) refl web_token
