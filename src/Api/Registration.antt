-- ===== src/Api/Registration.antt =====
-- api/v1alpha1/groupversion_info.go, and the `init` of api/v1alpha1/debugsession_types.go. The
-- builder of a scheme is the library's: the code names its group and version and the objects that
-- are registered with it.
use kube_debug_sess.Prelude.{String, List, [], ◌∷◌}

-- `schema.GroupVersion`
pub record GroupVersion : Type 0 where
  pub group : String
  pub version : String

abbrev group_version : GroupVersion
group_version = record { group = "ajou.oxan0n.me"; version = "v1alpha1" }

-- The objects of the group.
pub data ApiObject : Type 0 where
  debug_session debug_session_list : ApiObject

-- `scheme.Builder`, of which the code sets the group and version.
pub record SchemeBuilder : Type 0 where
  pub builds : GroupVersion

abbrev pub scheme_builder : SchemeBuilder
scheme_builder = record { builds = group_version }

-- What `init` registers with the builder.
abbrev pub registered_objects : List ApiObject
registered_objects = debug_session ∷ debug_session_list ∷ []
