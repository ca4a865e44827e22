-- ===== src/Tests/Starting.antt =====
-- The starts of the programs at concrete command lines, the text of a token, and a stream midway.
use kube_debug_sess.Prelude.{
  List, ◌⊎◌, false, ◌≡◌, refl, true, none, some, ◌==s◌, if◌then◌else◌, [], ◌∷◌,
}
use kube_debug_sess.Proxy.Connection.{Bytes, next, receive}
use kube_debug_sess.Proxy.Streaming.{
  writing, read_failed, write_failed, StreamState, first_size, started, after_read, receives,
  consumes, takes_size, Steps, none_left, and_then,
}
use kube_debug_sess.Proxy.Streaming.Laws.{IsSound, started-IsSound}
use kube_debug_sess.Proxy.Streaming.Drains.{started-drains}
use kube_debug_sess.Startup.Flags.{CommandLine, parse_flags}
use kube_debug_sess.Startup.Options.{TlsConfig, manager_options}
use kube_debug_sess.Startup.Options.Laws.{
  configure, IsCertificate, IsProtected, manager_options-secure,
}
use kube_debug_sess.Startup.Calls.{Answers, added_readyz_check}
use kube_debug_sess.Startup.Calls.Order.{Follows}
use kube_debug_sess.Startup.Manager.{manager_program}
use kube_debug_sess.Startup.Manager.Laws.{manager_plan, manager_program-Follows}
use kube_debug_sess.Startup.Proxies.{proxy_program}
use kube_debug_sess.Startup.Proxies.Laws.{proxy_plan, proxy_program-Follows}
use kube_debug_sess.Tests.Samples.{pod_with, running_debugger, calm, proxy}

-- No flag is given.
abbrev no_flags : CommandLine
no_flags = record { string_var = λ name default. default; bool_var = λ name default. default }

-- A certificate for the metrics server.
abbrev with_certificate : CommandLine
with_certificate = record no_flags {
  string_var = λ name default. if name ==s "metrics-cert-path" then "/certs" else default;
}

abbrev offering_http2 : TlsConfig
offering_http2 = record { next_protos = "h2" ∷ "http/1.1" ∷ [] }

manager_options-secure_example :
    let options = manager_options (parse_flags with_certificate) in
    ((configure options.metrics.metrics_tls_opts offering_http2).next_protos ≡ "http/1.1" ∷ [])
    × ((configure options.webhook.webhook_tls_opts offering_http2).next_protos ≡ "http/1.1" ∷ [])
    × IsProtected true options.metrics
    × IsCertificate "/certs" "tls.crt" "tls.key" options.metrics.metrics_certificate
    × IsCertificate "" "tls.crt" "tls.key" options.webhook.webhook_certificate
manager_options-secure_example = manager_options-secure with_certificate offering_http2

-- The check of readiness cannot be added; every other call succeeds.
abbrev unready : Answers
unready log (added_readyz_check name) = some "a check of that name is there"
unready log _ = none

manager_program-Follows_example :
    let (result, calls) =
      manager_program unready (calm (pod_with true running_debugger)) no_flags [] in
    Follows unready [] (manager_plan (calm (pod_with true running_debugger)) no_flags) result calls
manager_program-Follows_example =
    manager_program-Follows unready (calm (pod_with true running_debugger)) no_flags

proxy_program-Follows_example :
    let (result, calls) = proxy_program unready proxy no_flags [] in
    Follows unready [] (proxy_plan proxy no_flags) result calls
proxy_program-Follows_example = proxy_program-Follows unready proxy no_flags

-- A message is read from the pipe in part, while the stream is asked for its size.
abbrev two_messages : List Bytes
two_messages = (1 ∷ 2 ∷ []) ∷ (3 ∷ []) ∷ []

abbrev midway : StreamState
midway = record (started two_messages) {
  incoming = (3 ∷ []) ∷ [];
  forwarder = writing (2 ∷ []);
  consumed = 1 ∷ [];
  resize_chan = record { buffered = []; is_closed = false };
  taken = first_size ∷ [];
}

midway-Steps : Steps (started two_messages) midway
unfolding after_read next receive
midway-Steps = and_then (receives (1 ∷ 2 ∷ []) ((3 ∷ []) ∷ []) refl refl) (
    and_then (takes_size first_size (record { buffered = []; is_closed = false }) refl)
      (and_then (consumes 1 (1 ∷ 2 ∷ []) refl) none_left))

started-IsSound_example : IsSound two_messages midway
started-IsSound_example = started-IsSound two_messages midway midway-Steps

started-drains_example :
    (midway.forwarder ≡ write_failed)
    ⊎ ((t : StreamState) × Steps midway t
        × (t.forwarder ≡ read_failed)
        × (t.consumed ≡ 1 ∷ 2 ∷ 3 ∷ []))
started-drains_example = started-drains two_messages midway midway-Steps
