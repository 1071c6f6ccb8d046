-- ===== src/Identity/Agents/Tenants.antt =====
-- The keys of agents tell tenants apart, if no tenant has a bar in its name.
use Prim.Native.String.{String, ◌++◌}
use Prim.Native.String.append.{nil, cons}
use regenerative_architectur.Base.{◌≡◌, refl, sym, ◌∙◌, ap, ◌==◌, if◌then◌else◌}
use regenerative_architectur.Stores.Tenant.{default_tenant, tenant_key}

-- A text up to its first bar.
unfoldable pub before_bar : String → String
before_bar String.[] = ""
before_bar (String.◌∷◌ c s) =
    let rest = before_bar s in if String.◌∷◌ c "" == "|" then "" else String.◌∷◌ c rest

-- The tenant has a name, without a bar.
abbrev pub IsPlain : String → Type 0
IsPlain t = before_bar (default_tenant t) ≡ t

before_bar-bar : (id : String) → before_bar ("|" ++ id) ≡ ""
unfolding before_bar
before_bar-bar id = ap before_bar (cons "|" "" id)

before_bar-append : (s id : String) → before_bar (s ++ "|" ++ id) ≡ before_bar s
unfolding before_bar
before_bar-append String.[] id = ap before_bar (nil ("|" ++ id)) ∙ before_bar-bar id
before_bar-append (String.◌∷◌ c s) id =
    ap before_bar (cons c s ("|" ++ id)) ∙ rw (before_bar-append s id) refl

pub tenant_key-IsPlain :
    (t u id id' : String) → IsPlain t → IsPlain u → tenant_key t id ≡ tenant_key u id' → t ≡ u
unfolding tenant_key
tenant_key-IsPlain t u id id' p q h =
    sym p
    ∙ sym (before_bar-append (default_tenant t) id)
    ∙ ap before_bar h
    ∙ before_bar-append (default_tenant u) id'
    ∙ q
