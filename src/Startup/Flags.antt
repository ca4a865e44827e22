-- ===== src/Startup/Flags.antt =====
-- The flags of cmd/main.go and cmd/proxy/main.go. Parsing is the package `flag`'s: a command line
-- gives each flag a value from its name and default.
use kube_debug_sess.Prelude.{String, Bool, true, false}

pub record CommandLine : Type 0 where
  pub string_var : String → String → String
  pub bool_var : String → Bool → Bool

-- The variables at the top of `main`.
pub record Flags : Type 0 where
  pub metrics_addr : String
  pub metrics_cert_path : String
  pub metrics_cert_name : String
  pub metrics_cert_key : String
  pub webhook_cert_path : String
  pub webhook_cert_name : String
  pub webhook_cert_key : String
  pub enable_leader_election : Bool
  pub probe_addr : String
  pub secure_metrics : Bool
  pub enable_http2 : Bool

-- The flags that `main` declares, after `flag.Parse`.
abbrev pub parse_flags : CommandLine → Flags
parse_flags line = record {
  metrics_addr = line.string_var "metrics-bind-address" "0";
  metrics_cert_path = line.string_var "metrics-cert-path" "";
  metrics_cert_name = line.string_var "metrics-cert-name" "tls.crt";
  metrics_cert_key = line.string_var "metrics-cert-key" "tls.key";
  webhook_cert_path = line.string_var "webhook-cert-path" "";
  webhook_cert_name = line.string_var "webhook-cert-name" "tls.crt";
  webhook_cert_key = line.string_var "webhook-cert-key" "tls.key";
  enable_leader_election = line.bool_var "leader-elect" false;
  probe_addr = line.string_var "health-probe-bind-address" ":8081";
  secure_metrics = line.bool_var "metrics-secure" true;
  enable_http2 = line.bool_var "enable-http2" false;
}

-- The flag of the proxy.
abbrev pub parse_listen_addr : CommandLine → String
parse_listen_addr line = line.string_var "listen-addr" ":8080"
