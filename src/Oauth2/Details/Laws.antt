-- ===== src/Oauth2/Details/Laws.antt =====
-- Narrowing authorization details, over several steps.
use regenerative_architectur.Base.{
  ◌≡◌, refl, ap, ◌∙◌, String, Bool, true, ◌&&◌, inl, inr, Option, none, some, List, [], ◌∷◌, arith,
  ◌==◌, eq_iff, find, all_in, all_in_trans, Bool-cases, Option-cases,
}
use regenerative_architectur.Base.Int.{ℤ, leb_ℤ}
use regenerative_architectur.Oauth2.Details.{
  AuthorizationDetail, AuthorizationDetailFieldSemantics, set, at_most, enum, exact, unknown,
  AuthorizationDetailFieldRule, AuthorizationDetailType, bounded, equal_texts, field_strings,
  field_number, detail_field_subset, fields_subset, detail_subset_of, is_covered, details_subset_of,
}

-- A transitive order stays transitive with a least element.
bounded_trans :
    {A : Type 0} (below : A → A → Bool) (x y z : Option A)
    → ((a b c : A) → below a b ≡ true → below b c ≡ true → below a c ≡ true)
    → bounded below x y ≡ true
    → bounded below y z ≡ true
    → bounded below x z ≡ true
bounded_trans below none y z trans h k = refl
bounded_trans below (some a) (some b) (some c) trans h k = trans a b c h k
bounded_trans below (some a) (some b) none trans h k = k
bounded_trans below (some a) none z trans h k = absurd (ground (arith, h))

leb_ℤ_trans : (a b c : ℤ) → leb_ℤ a b ≡ true → leb_ℤ b c ≡ true → leb_ℤ a c ≡ true
leb_ℤ_trans a b c h k = ground arith

equal_texts_trans :
    (xs ys zs : List String)
    → equal_texts xs ys ≡ true
    → equal_texts ys zs ≡ true
    → equal_texts xs zs ≡ true
unfolding equal_texts
equal_texts_trans [] [] zs h k = k
equal_texts_trans [] (y ∷ ys) zs h k = absurd (ground (arith, h))
equal_texts_trans (x ∷ xs) [] zs h k = absurd (ground (arith, h))
equal_texts_trans (x ∷ xs) (y ∷ ys) [] h k = absurd (ground (arith, k))
equal_texts_trans (x ∷ xs) (y ∷ ys) (z ∷ zs) h k =
    ground (arith, eq_iff x y, eq_iff y z, eq_iff x z, equal_texts_trans xs ys zs)

module _ (a b c : AuthorizationDetail) where
  detail_field_subset_trans :
      (name : String) (s : AuthorizationDetailFieldSemantics)
      → detail_field_subset a b name s ≡ true
      → detail_field_subset b c name s ≡ true
      → detail_field_subset a c name s ≡ true
  unfolding detail_field_subset
  detail_field_subset_trans name set h k =
      bounded_trans all_in (field_strings a name) (field_strings b name) (field_strings c name)
        all_in_trans h k
  detail_field_subset_trans name enum h k =
      bounded_trans all_in (field_strings a name) (field_strings b name) (field_strings c name)
        all_in_trans h k
  detail_field_subset_trans name at_most h k =
      bounded_trans leb_ℤ (field_number a name) (field_number b name) (field_number c name)
        leb_ℤ_trans h k
  detail_field_subset_trans name exact h k =
      bounded_trans equal_texts (field_strings a name) (field_strings b name) (field_strings c name)
        equal_texts_trans h k
  detail_field_subset_trans name unknown h k = absurd (ground (arith, h))

  fields_subset_trans :
      (rules : List AuthorizationDetailFieldRule)
      → fields_subset a b rules ≡ true
      → fields_subset b c rules ≡ true
      → fields_subset a c rules ≡ true
  unfolding fields_subset
  fields_subset_trans [] h k = refl
  fields_subset_trans (rule ∷ rules) h k =
      ground (arith, detail_field_subset_trans rule.name rule.semantics, fields_subset_trans rules)

  detail_subset_of_trans :
      (t : AuthorizationDetailType)
      → detail_subset_of a b t ≡ true
      → detail_subset_of b c t ≡ true
      → detail_subset_of a c t ≡ true
  unfolding detail_subset_of
  detail_subset_of_trans t h k = ground (
    arith,
    eq_iff a.type b.type,
    eq_iff b.type c.type,
    eq_iff a.type c.type,
    fields_subset_trans t.rules,
  )

-- What covers a detail covers every detail below it.
is_covered-below :
    (a b : AuthorizationDetail) (granted : List AuthorizationDetail) (t : AuthorizationDetailType)
    → b.type ≡ a.type
    → detail_subset_of a b t ≡ true
    → is_covered b granted t ≡ true
    → is_covered a granted t ≡ true
unfolding is_covered
is_covered-below a b [] t same h k = k
is_covered-below a b (g ∷ granted) t same h k = ground (
  arith,
  same,
  eq_iff g.type a.type,
  eq_iff g.type b.type,
  detail_subset_of_trans a b g t h,
  is_covered-below a b granted t same h,
)

is_covered_trans :
    (req : AuthorizationDetail) (middle granted : List AuthorizationDetail)
    (types : List (String × AuthorizationDetailType)) (t : AuthorizationDetailType)
    → find req.type types ≡ some t
    → is_covered req middle t ≡ true
    → details_subset_of middle granted types ≡ true
    → is_covered req granted t ≡ true
unfolding is_covered details_subset_of
is_covered_trans req [] granted types t known h k = absurd (ground (arith, h))
is_covered_trans req (g ∷ middle) granted types t known h k =
    elim (Bool-cases (g.type == req.type && detail_subset_of req g t)) [
      | inl here ↦
          let same : g.type ≡ req.type = ground (arith, here, eq_iff g.type req.type) in
          let t_known : find g.type types ≡ some t = ap (λ n. find n types) same ∙ known in
          is_covered-below req g granted t same (ground (arith, here)) (ground (arith, k, t_known))
      | inr elsewhere ↦
          is_covered_trans req middle granted types t known (ground (arith, h, elsewhere))
            (ground (arith, k))
    ]

-- Narrowing twice is narrowing: details that stay below details that stay below a grant stay below the
-- grant, by the same registered types.
pub details_subset_of_trans :
    (requested middle granted : List AuthorizationDetail)
    (types : List (String × AuthorizationDetailType))
    → details_subset_of requested middle types ≡ true
    → details_subset_of middle granted types ≡ true
    → details_subset_of requested granted types ≡ true
unfolding details_subset_of
details_subset_of_trans [] middle granted types h k = refl
details_subset_of_trans (req ∷ requested) middle granted types h k =
    let rest : details_subset_of requested granted types ≡ true =
      details_subset_of_trans requested middle granted types (ground (arith, h)) k in
    elim (Option-cases (find req.type types)) [
      | inl missing ↦ absurd (ground (arith, h, missing))
      | inr (t, known) ↦
          let covered : is_covered req granted t ≡ true =
            is_covered_trans req middle granted types t known (ground (arith, h, known)) k in
          ground (arith, known, covered, rest)
    ]
