-- ===== src/Startup/Options/Laws.antt =====
-- What the options promise: no HTTP/2 by default, and a guarded metrics endpoint.
use kube_debug_sess.Prelude.{
  String, Bool, true, false, none, some, [], ◌∷◌, ◌≡◌, refl, sym, ◌⊎◌, inl, inr, ◌==s◌, eq_iff,
  if◌then◌else◌, Bool-cases,
}
use kube_debug_sess.Startup.Flags.{CommandLine, Flags, parse_flags}
use kube_debug_sess.Startup.Options.{
  TlsConfig, TlsOpts, Certificate, MetricsOptions, with_authentication_and_authorization,
  disable_http2, tls_opts, certificate, webhook_options, metrics_options, manager_options,
}

-- A server applies its TLS options in order.
abbrev pub configure : TlsOpts → TlsConfig → TlsConfig
configure [] c = c
configure (opt ∷ opts) c = configure opts (opt c)

tls_opts-protos :
    (f : Flags) (c : TlsConfig)
    → (configure (tls_opts f) c).next_protos
      ≡ (if f.enable_http2 then c.next_protos else "http/1.1" ∷ [])
unfolding tls_opts disable_http2
tls_opts-protos f c = elim (Bool-cases f.enable_http2) [ inl e ↦ rw e refl | inr e ↦ rw e refl ]

-- A certificate is taken from a directory, with the names given, or not at all.
abbrev pub IsCertificate : String → String → String → Certificate → Type 0
IsCertificate path name key c =
    (c.cert_dir ≡ path) × ((path ≡ "") ⊎ ((c.cert_name ≡ name) × (c.key_name ≡ key)))

certificate-IsCertificate :
    (path name key : String) → IsCertificate path name key (certificate path name key)
unfolding certificate
certificate-IsCertificate path name key = elim (Bool-cases (path ==s "")) [
  | inl e ↦ let empty = (eq_iff path "").0 e in rw e (sym empty, inl empty)
  | inr e ↦ rw e (refl, inr (refl, refl))
]

-- The endpoint is served securely, with authentication and authorisation, or neither.
abbrev pub IsProtected : Bool → MetricsOptions → Type 0
IsProtected secure m =
    ((secure ≡ true)
      × (m.secure_serving ≡ true)
      × (m.filter_provider ≡ some with_authentication_and_authorization))
    ⊎ ((secure ≡ false) × (m.secure_serving ≡ false) × (m.filter_provider ≡ none))

metrics_options-IsProtected : (f : Flags) → IsProtected f.secure_metrics (metrics_options f)
unfolding metrics_options
metrics_options-IsProtected f = elim (Bool-cases f.secure_metrics) [
  | inl e ↦ rw e (inl (refl, refl, refl))
  | inr e ↦ rw e (inr (refl, refl, refl))
]

-- Whatever the command line: the metrics server and the webhook server of the manager both offer
-- HTTP/1.1 alone, unless the flag enable-http2, false by default, is set, where the protocols of
-- their TLS configurations are left as they are; the metrics endpoint is served securely, and its
-- requests are authenticated and authorised, unless the flag metrics-secure, true by default, is
-- cleared, where neither holds; and both servers take a certificate from the directory that their
-- flags give, if any.
pub manager_options-secure :
    (line : CommandLine) (c : TlsConfig)
    → let options = manager_options (parse_flags line) in
      let protos = if line.bool_var "enable-http2" false then c.next_protos else "http/1.1" ∷ [] in
      ((configure options.metrics.metrics_tls_opts c).next_protos ≡ protos)
      × ((configure options.webhook.webhook_tls_opts c).next_protos ≡ protos)
      × IsProtected (line.bool_var "metrics-secure" true) options.metrics
      × IsCertificate
          (line.string_var "metrics-cert-path" "")
          (line.string_var "metrics-cert-name" "tls.crt")
          (line.string_var "metrics-cert-key" "tls.key")
          options.metrics.metrics_certificate
      × IsCertificate
          (line.string_var "webhook-cert-path" "")
          (line.string_var "webhook-cert-name" "tls.crt")
          (line.string_var "webhook-cert-key" "tls.key")
          options.webhook.webhook_certificate
unfolding manager_options webhook_options metrics_options
manager_options-secure line c = (
  tls_opts-protos (parse_flags line) c,
  tls_opts-protos (parse_flags line) c,
  metrics_options-IsProtected (parse_flags line),
  certificate-IsCertificate _ _ _,
  certificate-IsCertificate _ _ _,
)
