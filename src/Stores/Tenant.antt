-- ===== src/Stores/Tenant.antt =====
-- memory/helpers.go.
use Prim.Native.String.{◌++◌}
use regenerative_architectur.Base.{String, ◌==◌, if◌then◌else◌}

abbrev pub default_tenant_id : String
default_tenant_id = "default"

unfoldable pub default_tenant : String → String
default_tenant t = if t == "" then default_tenant_id else t

unfoldable pub tenant_key : String → String → String
unfolding default_tenant
tenant_key tenant_id id = default_tenant tenant_id ++ "|" ++ id
