-- ===== src/Startup/Proxies/Laws.antt =====
-- The calls by which the proxy starts.
use kube_debug_sess.Prelude.{none, some, [], ◌∷◌}
use kube_debug_sess.Api.Registration.ApiObject.{debug_session, debug_session_list}
use kube_debug_sess.Proxy.Server.{ProxyEnv, serve_http}
use kube_debug_sess.Startup.Flags.{CommandLine}
use kube_debug_sess.Startup.Calls.{
  registered_with, clientgo_types, built_types, added_to_scheme, got_config, made_clientset,
  made_client, handled, listened, exited, Answers,
}
use kube_debug_sess.Startup.Calls.Order.{
  repository_builder, Plan, Follows, then-IsPlanned, or_end-IsPlanned, ignoring-IsPlanned,
}
use kube_debug_sess.Startup.Proxies.{proxy_program}

-- The clients, the handler, and only then the listener.
abbrev pub proxy_plan : ProxyEnv → CommandLine → Plan
proxy_plan env line =
    (registered_with repository_builder (debug_session ∷ debug_session_list ∷ []), none)
    ∷ (got_config, some (exited "Failed to get kubeconfig"))
    ∷ (made_clientset, some (exited "Failed to create clientset"))
    ∷ (added_to_scheme clientgo_types, none)
    ∷ (added_to_scheme (built_types repository_builder), none)
    ∷ (made_client, some (exited "Failed to create controller-runtime client"))
    ∷ (handled "/attach" (serve_http env), none)
    ∷ (listened (line.string_var "listen-addr" ":8080"), some (exited "Failed to start server"))
    ∷ []

-- The proxy's program makes its calls in one order: its types are registered, it reads the
-- configuration, makes the clientset, adds both groups of types to a scheme, makes the client,
-- registers `ServeHTTP` for /attach, and only then listens, on the address that the flag
-- listen-addr gives, by default :8080. A failure to add types does not stop it; of the other calls
-- the first that fails is the last made, and ends the program with its message; if none fails, all
-- are made and the program returns.
pub proxy_program-Follows :
    (answers : Answers) (env : ProxyEnv) (line : CommandLine)
    → let (result, calls) = proxy_program answers env line [] in
      Follows answers [] (proxy_plan env line) result calls
unfolding proxy_program
proxy_program-Follows answers env line =
    let one = or_end-IsPlanned answers in
    let any = ignoring-IsPlanned answers in
    let and = then-IsPlanned answers in
    and _ _ _ _
      (and _ _ _ _
        (and _ _ _ _
          (and _ _ _ _ (and _ _ _ _ (and _ _ _ _ (and _ _ _ _ (any _) (one _ _)) (one _ _)) (any _))
            (any _))
          (one _ _))
        (any _))
      (one _ _) []
