-- ===== src/Startup/Options.antt =====
-- The options of the servers and of the manager that cmd/main.go builds from its flags. Of
-- `tls.Config` it stands the field that the code sets. Fields that are not set have Go's zero
-- values.
pub mod Laws
use kube_debug_sess.Prelude.{String, Bool, Option, none, some, List, [], ◌∷◌, ◌==s◌, if◌then◌else◌}
use kube_debug_sess.Startup.Flags.{Flags}

pub record TlsConfig : Type 0 where
  pub next_protos : List String

abbrev pub TlsOpts : Type 0
TlsOpts = List (TlsConfig → TlsConfig)

-- `CertDir`, `CertName` and `KeyName` of both kinds of options.
pub record Certificate : Type 0 where
  pub cert_dir : String
  pub cert_name : String
  pub key_name : String

pub record WebhookOptions : Type 0 where
  pub webhook_tls_opts : TlsOpts
  pub webhook_certificate : Certificate

pub data FilterProvider : Type 0 where
  with_authentication_and_authorization : FilterProvider

pub record MetricsOptions : Type 0 where
  pub bind_address : String
  pub secure_serving : Bool
  pub metrics_tls_opts : TlsOpts
  pub filter_provider : Option FilterProvider
  pub metrics_certificate : Certificate

pub record ManagerOptions : Type 0 where
  pub metrics : MetricsOptions
  pub webhook : WebhookOptions
  pub health_probe_bind_address : String
  pub leader_election : Bool
  pub leader_election_id : String

unfoldable disable_http2 : TlsConfig → TlsConfig
disable_http2 c = record c { next_protos = "http/1.1" ∷ [] }

unfoldable tls_opts : Flags → TlsOpts
unfolding disable_http2
tls_opts f = if f.enable_http2 then [] else disable_http2 ∷ []

-- The certificate's fields, which are set where a directory is given.
unfoldable certificate : String → String → String → Certificate
certificate path name key =
    if path ==s ""
    then record { cert_dir = ""; cert_name = ""; key_name = "" }
    else record { cert_dir = path; cert_name = name; key_name = key }

unfoldable webhook_options : Flags → WebhookOptions
unfolding tls_opts certificate
webhook_options f = record {
  webhook_tls_opts = tls_opts f;
  webhook_certificate = certificate f.webhook_cert_path f.webhook_cert_name f.webhook_cert_key;
}

unfoldable pub metrics_options : Flags → MetricsOptions
unfolding tls_opts certificate
metrics_options f = record {
  bind_address = f.metrics_addr;
  secure_serving = f.secure_metrics;
  metrics_tls_opts = tls_opts f;
  filter_provider = if f.secure_metrics then some with_authentication_and_authorization else none;
  metrics_certificate = certificate f.metrics_cert_path f.metrics_cert_name f.metrics_cert_key;
}

unfoldable pub manager_options : Flags → ManagerOptions
unfolding webhook_options metrics_options
manager_options f = record {
  metrics = metrics_options f;
  webhook = webhook_options f;
  health_probe_bind_address = f.probe_addr;
  leader_election = f.enable_leader_election;
  leader_election_id = "17af02ed.oxan0n.me";
}
