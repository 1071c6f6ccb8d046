-- ===== src/Oauth2/Details.antt =====
-- ra-idp-go/internal/oauth2/domain/authorization_details.go and the records of shared/spec/oauth2.go that
-- it reads: rich authorization requests (RFC 9396). An error is `false`; its message is left out.
pub mod Laws
use regenerative_architectur.Base.{
  String, Bool, true, false, not, ◌&&◌, ◌||◌, Option, none, some, List, [], ◌∷◌, ◌++◌, map, ◌==◌,
  find, contains, all_in, if◌then◌else◌,
}
use regenerative_architectur.Base.Int.{ℤ, leb_ℤ}
use regenerative_architectur.Base.Words.{is_blank}

-- An element of a JSON array: a text or anything else.
pub data Element : Type 0 where
  text_element : String → Element
  other_element : Element

-- What `map[string]any` holds. A number is a float64 that is no NaN, which JSON has not, by its place in
-- the order of these numbers.
pub data FieldValue : Type 0 where
  nil other : FieldValue
  text : String → FieldValue
  texts : List String → FieldValue
  array : List Element → FieldValue
  number : ℤ → FieldValue

pub record AuthorizationDetail : Type 0 where
  pub type : String
  pub locations : List String
  pub actions : List String
  pub datatypes : List String
  pub identifier : String
  pub privileges : List String
  pub fields : List (String × FieldValue)

pub data AuthorizationDetailFieldSemantics : Type 0 where
  set at_most enum exact unknown : AuthorizationDetailFieldSemantics

pub record AuthorizationDetailFieldRule : Type 0 where
  pub name : String
  pub semantics : AuthorizationDetailFieldSemantics
  pub required : Bool
  pub allowed : List String

-- The fields of spec.AuthorizationDetailType that the checks read.
pub record AuthorizationDetailType : Type 0 where
  pub type : String
  pub rules : List AuthorizationDetailFieldRule
  pub enabled : Bool

-- standardArrayFields
abbrev pub standard : AuthorizationDetail → String → Option (List String)
standard d name =
    if name == "locations"
    then some d.locations
    else if name == "actions"
    then some d.actions
    else if name == "datatypes"
    then some d.datatypes
    else if name == "privileges"
    then some d.privileges
    else none

abbrev pub is_empty {ℓ} : {A : Type ℓ} → List A → Bool
is_empty [] = true
is_empty (x ∷ xs) = false

abbrev pub keys {ℓ} : {V : Type ℓ} → List (String × V) → List String
keys [] = []
keys ((k, v) ∷ m) = k ∷ keys m

abbrev pub name_if : Bool → String → List String
name_if b name = if b then name ∷ [] else []

-- The names of the fields that a detail fills.
unfoldable pub present_field_names : AuthorizationDetail → List String
present_field_names d =
    name_if (not (is_empty d.locations)) "locations"
    ++ name_if (not (is_empty d.actions)) "actions"
    ++ name_if (not (is_empty d.datatypes)) "datatypes"
    ++ name_if (not (is_empty d.privileges)) "privileges"
    ++ name_if (not (is_blank d.identifier)) "identifier"
    ++ keys d.fields

abbrev pub some_unless_empty : List String → Option (List String)
some_unless_empty [] = none
some_unless_empty (v ∷ vs) = some (v ∷ vs)

abbrev pub cons_text : Element → Option (List String) → Option (List String)
cons_text (text_element s) (some out) = some (s ∷ out)
cons_text _ _ = none

-- The texts of an array; `none` if an element is no text.
abbrev pub texts_of : List Element → Option (List String)
texts_of [] = some []
texts_of (e ∷ es) = cons_text e (texts_of es)

abbrev pub nonempty_texts : Option (List String) → Option (List String)
nonempty_texts none = none
nonempty_texts (some out) = some_unless_empty out

abbrev pub value_strings : Option FieldValue → Option (List String)
value_strings (some (text s)) = some (s ∷ [])
value_strings (some (texts v)) = some_unless_empty v
value_strings (some (array v)) = nonempty_texts (texts_of v)
value_strings _ = none

-- `none` is `ok == false`.
unfoldable pub field_strings : AuthorizationDetail → String → Option (List String)
field_strings d name = elim (standard d name) [
  | some v ↦ some_unless_empty v
  | none ↦
      if name == "identifier"
      then (if is_blank d.identifier then none else some (d.identifier ∷ []))
      else value_strings (find name d.fields)
]

abbrev pub value_number : Option FieldValue → Option ℤ
value_number (some (number n)) = some n
value_number _ = none

unfoldable pub field_number : AuthorizationDetail → String → Option ℤ
field_number d name = value_number (find name d.fields)

abbrev pub is_some {ℓ} : {A : Type ℓ} → Option A → Bool
is_some none = false
is_some (some a) = true

-- `len(rule.Allowed) > 0` and every value is in it.
abbrev pub all_allowed : List String → Option (List String) → Bool
all_allowed allowed none = false
all_allowed allowed (some values) = is_empty allowed || all_in values allowed

abbrev pub is_single : Option (List String) → Bool
is_single (some (v ∷ [])) = true
is_single _ = false

unfoldable pub validate_field_value :
    AuthorizationDetail → AuthorizationDetailFieldRule → AuthorizationDetailFieldSemantics → Bool
unfolding field_strings field_number
validate_field_value d rule set = all_allowed rule.allowed (field_strings d rule.name)
validate_field_value d rule enum =
    is_single (field_strings d rule.name) && all_allowed rule.allowed (field_strings d rule.name)
validate_field_value d rule at_most = is_some (field_number d rule.name)
validate_field_value d rule exact = is_some (field_strings d rule.name)
validate_field_value d rule unknown = false

-- The second loop of ValidateAgainstType.
unfoldable pub validate_rules : AuthorizationDetail → List AuthorizationDetailFieldRule → Bool
unfolding validate_field_value present_field_names
validate_rules d [] = true
validate_rules d (rule ∷ rules) =
    let rest = validate_rules d rules in
    (if contains (present_field_names d) rule.name
      then validate_field_value d rule rule.semantics
      else not rule.required)
    && rest

unfoldable pub validate_against_type : AuthorizationDetail → AuthorizationDetailType → Bool
unfolding validate_rules present_field_names
validate_against_type d t =
    not (d.type == "")
    && d.type == t.type
    && t.enabled
    && all_in (present_field_names d) (map (λ r. r.name) t.rules)
    && validate_rules d t.rules

-- The order of each kind of field; a request that leaves the field out asks for less.
abbrev pub bounded {ℓ} : {A : Type ℓ} → (A → A → Bool) → Option A → Option A → Bool
bounded below none granted = true
bounded below (some r) none = false
bounded below (some r) (some g) = below r g

-- slices.Equal
unfoldable pub equal_texts : List String → List String → Bool
equal_texts [] [] = true
equal_texts (x ∷ xs) (y ∷ ys) = let rest = equal_texts xs ys in x == y && rest
equal_texts _ _ = false

unfoldable pub detail_field_subset :
    AuthorizationDetail → AuthorizationDetail → String → AuthorizationDetailFieldSemantics → Bool
unfolding field_strings field_number equal_texts
detail_field_subset requested granted name set =
    bounded all_in (field_strings requested name) (field_strings granted name)
detail_field_subset requested granted name enum =
    bounded all_in (field_strings requested name) (field_strings granted name)
detail_field_subset requested granted name at_most =
    bounded leb_ℤ (field_number requested name) (field_number granted name)
detail_field_subset requested granted name exact =
    bounded equal_texts (field_strings requested name) (field_strings granted name)
detail_field_subset requested granted name unknown = false

unfoldable pub fields_subset :
    AuthorizationDetail → AuthorizationDetail → List AuthorizationDetailFieldRule → Bool
unfolding detail_field_subset
fields_subset requested granted [] = true
fields_subset requested granted (rule ∷ rules) =
    let rest = fields_subset requested granted rules in
    detail_field_subset requested granted rule.name rule.semantics && rest

unfoldable pub detail_subset_of :
    AuthorizationDetail → AuthorizationDetail → AuthorizationDetailType → Bool
unfolding fields_subset
detail_subset_of requested granted t =
    requested.type == granted.type
    && requested.type == t.type
    && fields_subset requested granted t.rules

-- The inner loop of DetailsSubsetOf.
unfoldable pub is_covered :
    AuthorizationDetail → List AuthorizationDetail → AuthorizationDetailType → Bool
unfolding detail_subset_of
is_covered req [] t = false
is_covered req (grant ∷ granted) t =
    let rest = is_covered req granted t in
    grant.type == req.type && detail_subset_of req grant t || rest

abbrev pub is_covered_by :
    AuthorizationDetail → List AuthorizationDetail → Option AuthorizationDetailType → Bool
is_covered_by req granted none = false
is_covered_by req granted (some t) = is_covered req granted t

unfoldable pub details_subset_of :
    List AuthorizationDetail
    → List AuthorizationDetail
    → List (String × AuthorizationDetailType)
    → Bool
unfolding is_covered
details_subset_of [] granted types = true
details_subset_of (req ∷ requested) granted types =
    let rest = details_subset_of requested granted types in
    is_covered_by req granted (find req.type types) && rest
