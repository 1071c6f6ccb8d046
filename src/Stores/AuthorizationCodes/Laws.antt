-- ===== src/Stores/AuthorizationCodes/Laws.antt =====
-- An authorization code is redeemed at most once.
use regenerative_architectur.Base.{
  ◌≡◌, refl, sym, inl, inr, String, false, Option, none, some, arith, ◌==◌, find, put, find-put,
  find-put_self, Option-cases,
}
use regenerative_architectur.Spec.{Time}
use regenerative_architectur.Machines.CodeRecord.{
  AuthorizationCodeRecordState, issued, redeemed, transition,
}
use regenerative_architectur.Oauth2.Records.{AuthorizationCodeRecord, Result, ok}
use regenerative_architectur.Stores.AuthorizationCodes.{
  AuthorizationCodeStore, redeem_code, find_code,
}

abbrev pub redeemed_at : AuthorizationCodeRecord → Time → AuthorizationCodeRecord
redeemed_at rec now = record rec { state = redeemed; redeemed_at = some now }

-- What a redemption that succeeds found and left.
pub record Redeemed (code : String) (now : Time) (s t : AuthorizationCodeStore)
    (r : AuthorizationCodeRecord) : Type 0 where
  pub old : AuthorizationCodeRecord
  pub was : find_code s code ≡ some old
  pub was_issued : old.state ≡ issued
  pub is : find_code t code ≡ some (redeemed_at old now)
  pub answer : r ≡ redeemed_at old now
  pub others : (c : String) → (c == code) ≡ false → find_code t c ≡ find_code s c

module _ (code : String) (now : Time) (s : AuthorizationCodeStore) where
  put-others :
      (rec : AuthorizationCodeRecord) (c : String)
      → (c == code) ≡ false
      → find c (put code rec s) ≡ find c s
  put-others rec c other = ground (arith, find-put c code rec s, other)

  Redeemed-state :
      (rec : AuthorizationCodeRecord) (st : AuthorizationCodeRecordState)
      {r : AuthorizationCodeRecord} {t : AuthorizationCodeStore}
      → find code s ≡ some rec
      → rec.state ≡ st
      → redeem_code code now s ≡ (ok (some r), t)
      → Redeemed code now s t r
  unfolding redeem_code transition find_code
  Redeemed-state rec issued {r} {t} found at e =
      let e1 : ◌≡◌ {A = Result (Option AuthorizationCodeRecord) × AuthorizationCodeStore}
          (ok (some (redeemed_at rec now)), put code (redeemed_at rec now) s) (ok (some r), t) =
        ground (arith, found, at, e) in
      let same : put code (redeemed_at rec now) s ≡ t = cc in
      record {
        old = rec;
        was = found;
        was_issued = at;
        is = rw (sym same) (find-put_self code (redeemed_at rec now) s);
        answer = cc;
        others = λ c other. rw (sym same) (put-others (redeemed_at rec now) c other);
      }
  Redeemed-state rec _ {r} {t} found at e = absurd (ground (arith, found, at, e))

  pub redeem_code-Redeemed :
      {r : AuthorizationCodeRecord} {t : AuthorizationCodeStore}
      → redeem_code code now s ≡ (ok (some r), t)
      → Redeemed code now s t r
  unfolding redeem_code
  redeem_code-Redeemed e = elim (Option-cases (find code s)) [
    | inl missing ↦ absurd (ground (arith, missing, e))
    | inr (rec, found) ↦ Redeemed-state rec rec.state found refl e
  ]

-- A code whose record is not in the state issued is not redeemed, and nothing changes.
pub redeem_code-not_issued :
    (code : String) (now : Time) (s : AuthorizationCodeStore) (rec : AuthorizationCodeRecord)
    → find_code s code ≡ some rec
    → rec.state ≡ redeemed
    → redeem_code code now s ≡ (ok none, s)
unfolding redeem_code find_code
redeem_code-not_issued code now s rec found at = rw (found, redeem_code) (rw at refl)

-- A code that was redeemed once is not redeemed again: the second attempt, at any time, answers that
-- there is nothing to redeem and changes nothing.
pub redeem_code-once :
    (code : String) (now now' : Time) (s t : AuthorizationCodeStore) (r : AuthorizationCodeRecord)
    → redeem_code code now s ≡ (ok (some r), t)
    → redeem_code code now' t ≡ (ok none, t)
redeem_code-once code now now' s t r e =
    redeem_code-not_issued code now' t _ (redeem_code-Redeemed code now s e).is refl
