-- ===== src/Reconcilers/SecurityContexts.antt =====
-- `buildSecurityContext` of internal/controller/session_phases/reconcilers/injecting_reconciler.go
pub mod Laws
use kube_debug_sess.Prelude.{String, true, false, Option, none, some, List, [], ◌∷◌}
use kube_debug_sess.Prelude.Int.{pos}
use kube_debug_sess.Api.{Capabilities, DebugSecurityContext}
use kube_debug_sess.Kube.{SecurityContext}

pub default_security_context : SecurityContext
default_security_context = record {
  run_as_non_root = some true;
  run_as_user = some (pos 1000);
  run_as_group = some (pos 1000);
  privileged = some false;
  allow_privilege_escalation = some false;
  read_only_root_filesystem = some true;
  capabilities = some (record { add = some []; drop = some ("ALL" ∷ []) });
}

-- `if sec.F != nil { sc.F = sec.F }`
abbrev pub override {ℓ} : {A : Type ℓ} → Option A → Option A → Option A
override none old = old
override (some a) old = some a

-- `if add == nil { add = []corev1.Capability{} }`
abbrev or_empty : Option (List String) → Option (List String)
or_empty none = some []
or_empty (some l) = some l

abbrev pub merge_capabilities : Option Capabilities → Option Capabilities → Option Capabilities
merge_capabilities none old = old
merge_capabilities (some c) old = some (record { add = or_empty c.add; drop = or_empty c.drop })

unfoldable pub build_security_context : Option DebugSecurityContext → SecurityContext
unfolding default_security_context
build_security_context none = default_security_context
build_security_context (some sec) = record {
  run_as_non_root = override sec.run_as_non_root default_security_context.run_as_non_root;
  run_as_user = override sec.run_as_user default_security_context.run_as_user;
  run_as_group = override sec.run_as_group default_security_context.run_as_group;
  privileged = override sec.privileged default_security_context.privileged;
  allow_privilege_escalation =
      override sec.allow_privilege_escalation default_security_context.allow_privilege_escalation;
  read_only_root_filesystem =
      override sec.read_only_root_filesystem default_security_context.read_only_root_filesystem;
  capabilities = merge_capabilities sec.capabilities default_security_context.capabilities;
}
