-- ===== src/Startup/Proxies.antt =====
-- `main` of cmd/proxy/main.go.
-- The errors of `AddToScheme` are not read. `http.Handle` returns none.
pub mod Laws
use kube_debug_sess.Proxy.Server.{ProxyEnv, serve_http}
use kube_debug_sess.Startup.Flags.{CommandLine, parse_listen_addr}
use kube_debug_sess.Startup.Calls.{
  clientgo_types, debug_types, added_to_scheme, got_config, made_clientset, made_client, handled,
  listened, exited, End, Answers, Program, ◌then◌, call, or_end, ignoring, init_types,
}

unfoldable pub proxy_program : Answers → ProxyEnv → CommandLine → Program End
proxy_program answers env line =
    init_types answers
    then or_end (exited "Failed to get kubeconfig") (call answers got_config)
    then or_end (exited "Failed to create clientset") (call answers made_clientset)
    then ignoring answers (added_to_scheme clientgo_types)
    then ignoring answers (added_to_scheme debug_types)
    then or_end (exited "Failed to create controller-runtime client") (call answers made_client)
    then ignoring answers (handled "/attach" (serve_http env))
    then or_end (exited "Failed to start server") (call answers (listened (parse_listen_addr line)))
