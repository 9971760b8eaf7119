-- ===== src/Api/Scheme.antt =====
-- api/v1/groupversion_info.go, and the registration in heliosconfig_types.go.
use helios_lb.Prelude.{List, [], ◌∷◌, Text, codes}

pub record GroupVersion : Type 0 where
  pub group : Text
  pub version : Text

abbrev pub group_version : GroupVersion
group_version = record { group = codes "balancer.helios.dev"; version = codes "v1" }

pub data ObjectKind : Type 0 where
  helios_config helios_config_list : ObjectKind

pub record SchemeBuilder : Type 0 where
  pub builder_version : GroupVersion
  pub objects : List ObjectKind

abbrev pub scheme_builder : SchemeBuilder
scheme_builder = record { builder_version = group_version; objects = [] }

-- The builder behind the `init` of the package.
abbrev pub registered_builder : SchemeBuilder
registered_builder = record scheme_builder { objects = helios_config ∷ helios_config_list ∷ [] }
