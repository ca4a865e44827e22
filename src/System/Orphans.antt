-- ===== src/System/Orphans.antt =====
-- A ready session whose target pod is gone.
use kube_debug_sess.Prelude.{◌≡◌, ◌≢◌, sym, ap, ◌∙◌, ◌<>◌, true, some, List, []}
use kube_debug_sess.Api.{DebugSession, phase_text}
use kube_debug_sess.Api.SessionPhase.{active, failed}
use kube_debug_sess.Kube.{ApiError, ok, err}
use kube_debug_sess.Cluster.{Env, History}
use kube_debug_sess.SessionPhases.Update.{with_namespace, with_phase, target_pod}
use kube_debug_sess.Reconcilers.Active.Laws.{reconcile-missing_pod}
use kube_debug_sess.Controller.{reconciler_for, run_reconciler}
use kube_debug_sess.Controller.Runs.{Run, Run-failed, persist}
use kube_debug_sess.Proxy.Text.{split_space}
use kube_debug_sess.Proxy.Text.Laws.{trim_prefix-append}
use kube_debug_sess.Proxy.Server.{
  upgrader, HttpRequest, ProxyEnv, attached, attach_request, find_session, bearer_token, stream,
  serve_http,
}
use kube_debug_sess.Proxy.Server.Access.{serve_http_complete}
use kube_debug_sess.Proxy.Server.Token.{debugger_name-ne-nil}
use kube_debug_sess.System.Store.{after, after-phase, stored-accepted}

-- What a run stores of an active session whose pod is not found.
abbrev lost : DebugSession → DebugSession
lost s = persist s (with_phase (with_namespace s) failed "Target pod not found.")

after-lost :
    (env : Env) (s : DebugSession) (e : ApiError)
    → s.status.phase ≡ active
    → env.pod [] (target_pod (with_namespace s)) ≡ err e
    → e.is_not_found ≡ true
    → ((h : History) (t : DebugSession) → env.status_answer h t ≡ ok t)
    → after env s ≡ lost s
unfolding run_reconciler reconciler_for phase_text
after-lost env s e phase answer gone accepts =
    let stored = (reconcile-missing_pod env s [] e answer gone).0 in
    after-phase env s active phase ∙ stored-accepted env s _ _ _ stored (accepts _ _)

-- Of an active session that is ready, whose target pod is not found in a run where the API server
-- accepts what it is sent: after this run and any number of others, in any surroundings in which
-- status updates keep the status, the session is Failed, and yet a proxy that lists it first of its
-- UID attaches a request for /attach that names a namespace, a pod and its container and bears its
-- token as it was before, once the connection is upgraded.
pub orphan-serve_http :
    (env : Env) (s t : DebugSession) (e : ApiError) (proxy : ProxyEnv) (r : HttpRequest)
    (l : List DebugSession)
    → s.status.phase ≡ active
    → s.status.ready_for_attach ≡ true
    → env.pod [] (target_pod (with_namespace s)) ≡ err e
    → e.is_not_found ≡ true
    → ((h : History) (u : DebugSession) → env.status_answer h u ≡ ok u)
    → Run (after env s) t
    → proxy.sessions ≡ ok l
    → find_session l s.uid ≡ some t
    → proxy.upgrade upgrader ≡ ok tt
    → r.path ≡ "/attach"
    → r.query "ns" ≢ ""
    → r.query "pod" ≢ ""
    → r.query "container" ≡ "debugger-" <> s.uid
    → bearer_token (split_space r.authorization) ≡ some s.status.one_time_token
    → (t.status.phase ≡ failed)
      × (serve_http proxy r
          ≡ attached
              (attach_request (r.query "ns") (r.query "pod") (r.query "container"))
              (stream proxy (r.query "ns") (r.query "pod") (r.query "container")))
orphan-serve_http env s t e proxy r l phase ready answer gone accepts runs listed found up path ns
      pod container token =
    let stays : t ≡ lost s =
      let first = after-lost env s e phase answer gone accepts in
      Run-failed (ap (λ x. x.status.phase) first) runs ∙ first in
    (
      ap (λ x. x.status.phase) stays,
      serve_http_complete proxy r t
          (record {
            sessions = l;
            listed = listed;
            on_path = path;
            has_ns = ns;
            has_pod = pod;
            has_container = λ q. debugger_name-ne-nil s (sym container ∙ q);
            found = rw (container, trim_prefix-append "debugger-" s.uid) found;
            ready = ap (λ x. x.status.ready_for_attach) stays ∙ ready;
            token = token ∙ ap some (sym (ap (λ x. x.status.one_time_token) stays));
          })
          up,
    )
