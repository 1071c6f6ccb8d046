-- ===== src/Stores/Par/Laws.antt =====
-- A pushed request is consumed at most once.
use regenerative_architectur.Base.{
  ◌≡◌, refl, sym, ap, ◌∙◌, inl, inr, String, Bool, true, false, ◌||◌, Option, none, some, arith,
  find, put, find-put_self, Option-cases, Bool-cases,
}
use regenerative_architectur.Spec.{Time, before}
use regenerative_architectur.Stores.Par.{ParRecord, ParStore, find_par, consume}

in_time : (a b : Bool) → (a || b) ≡ false → b ≡ false
in_time a b h = ground arith

module _ {ℓ} {R : Type ℓ} where
  consume-used :
      (clock : Time) (uri : String) (s : ParStore R) (rec : ParRecord R)
      → find_par s uri ≡ some rec
      → rec.used ≡ true
      → consume clock uri s ≡ (none, s)
  unfolding consume find_par
  consume-used clock uri s rec found used = rw (found, consume) (rw used refl)

  at_self :
      (uri : String) (s t : ParStore R) (rec : ParRecord R)
      → put uri rec s ≡ t
      → find_par t uri ≡ some rec
  unfolding find_par
  at_self uri s t rec same = rw (sym same) (find-put_self uri rec s)

  -- A pushed authorization request that was consumed is not consumed again, at any time: the second
  -- attempt finds nothing and changes nothing. The record that the first attempt returned is marked
  -- used, and its time had not passed.
  pub consume-once :
      (clock clock' : Time) (uri : String) (s t : ParStore R) (r : ParRecord R)
      → consume clock uri s ≡ (some r, t)
      → (consume clock' uri t ≡ (none, t)) × (r.used ≡ true) × (before r.expires_at clock ≡ false)
  unfolding consume
  consume-once clock clock' uri s t r e = elim (Option-cases (find uri s)) [
    | inl missing ↦ absurd (ground (arith, missing, e))
    | inr (rec, found) ↦ elim (Bool-cases (rec.used || before rec.expires_at clock)) [
      | inl refused ↦ absurd (ground (arith, found, refused, e))
      | inr live ↦
          let marked = record rec { used = true } in
          let e1 : ◌≡◌ {A = Option (ParRecord R) × ParStore R} (some marked, put uri marked s)
              (some r, t) =
            ground (arith, found, live, e) in
          let same : put uri marked s ≡ t = cc in
          let is : marked ≡ r = cc in
          (
            consume-used clock' uri t marked (at_self uri s t marked same) refl,
            ap (λ x. x.used) (sym is),
            ap (λ x. before x.expires_at clock) (sym is) ∙ in_time rec.used _ live,
          )
    ]
  ]
