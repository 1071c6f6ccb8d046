-- ===== src/Stores/Replay/Laws.antt =====
-- What the replay store remembers.
use regenerative_architectur.Base.{
  ℕ, ◌+◌, ◌<◌, ◌≡◌, refl, inl, inr, String, true, false, some, List, [], ◌∷◌, arith, ◌==◌, eq_iff,
  find, find-put, find-put_self, Option-cases, Bool-cases,
}
use regenerative_architectur.Spec.{Time, seconds, or_clock}
use regenerative_architectur.Stores.Replay.{ReplayStore, prune, record_if_new}

find-prune :
    (jti : String) (now until : Time) (s : ReplayStore)
    → find jti s ≡ some until
    → now < until
    → find jti (prune now s) ≡ some until
unfolding find prune
find-prune jti now until [] found h = ground (arith, found)
find-prune jti now until ((k, expires_at) ∷ s) found h =
    ground (arith, found, find-prune jti now until s)

-- A call of record_if_new: jti, window and time.
abbrev pub Call : Type 0
Call = String × ℕ × Time

unfoldable pub record_all : Time → List Call → ReplayStore → ReplayStore
record_all clock [] s = s
record_all clock ((jti, window, now) ∷ calls) s =
    record_all clock calls (record_if_new clock jti window now s).1

-- Every call is made before a time.
abbrev pub AllBefore : Time → Time → List Call → Type 0
AllBefore clock until [] = Unit
AllBefore clock until ((jti, window, now) ∷ calls) =
    (or_clock clock now < until) × AllBefore clock until calls

record_if_new-keeps :
    (clock : Time) (jti : String) (until : Time) (j : String) (window : ℕ) (now : Time)
    (s : ReplayStore)
    → find jti s ≡ some until
    → or_clock clock now < until
    → find jti (record_if_new clock j window now s).1 ≡ some until
unfolding record_if_new
record_if_new-keeps clock jti until j window now s found h =
    let kept = find-prune jti (or_clock clock now) until s found h in
    elim (Option-cases (find j (prune (or_clock clock now) s))) [
      | inr (_, seen) ↦ rw (seen, record_if_new) kept
      | inl new ↦
          rw (new, record_if_new)
            (elim (Bool-cases (jti == j)) [
              | inl same ↦ absurd (ground (arith, eq_iff jti j, same, new, kept))
              | inr other ↦ ground (
                arith,
                find-put jti j (or_clock clock now + seconds window) (prune (or_clock clock now) s),
                other,
                kept,
              )
            ])
    ]

record_all-keeps :
    (clock : Time) (jti : String) (until : Time) (calls : List Call) (s : ReplayStore)
    → find jti s ≡ some until
    → AllBefore clock until calls
    → find jti (record_all clock calls s) ≡ some until
unfolding record_all
record_all-keeps clock jti until [] s found h = found
record_all-keeps clock jti until ((j, window, now) ∷ calls) s found h =
    record_all-keeps clock jti until calls (record_if_new clock j window now s).1
      (record_if_new-keeps clock jti until j window now s found h.0) h.1

record_if_new-seen :
    (clock : Time) (jti : String) (until : Time) (window : ℕ) (now : Time) (s : ReplayStore)
    → find jti s ≡ some until
    → or_clock clock now < until
    → (record_if_new clock jti window now s).0 ≡ false
unfolding record_if_new
record_if_new-seen clock jti until window now s found h =
    rw (find-prune jti (or_clock clock now) until s found h, record_if_new) refl

record_if_new-stores :
    (clock : Time) (jti : String) (window : ℕ) (now : Time) (s : ReplayStore)
    → (record_if_new clock jti window now s).0 ≡ true
    → find jti (record_if_new clock jti window now s).1 ≡ some (or_clock clock now + seconds window)
unfolding record_if_new
record_if_new-stores clock jti window now s e =
    elim (Option-cases (find jti (prune (or_clock clock now) s))) [
      | inr (_, seen) ↦ absurd (ground (arith, seen, e))
      | inl new ↦
          rw (new, record_if_new)
            (find-put_self jti (or_clock clock now + seconds window) (prune (or_clock clock now) s))
    ]

-- Once a jti was accepted, it is answered as seen for the whole window that it was accepted for,
-- whatever was recorded in between: any number of calls with any jti and window, each at a time before
-- the window's end, in any order.
pub record_if_new-once :
    (clock : Time) (jti : String) (window : ℕ) (now : Time) (s : ReplayStore) (calls : List Call)
    (window' : ℕ) (now' : Time)
    → (record_if_new clock jti window now s).0 ≡ true
    → AllBefore clock (or_clock clock now + seconds window) calls
    → or_clock clock now' < or_clock clock now + seconds window
    → (record_if_new clock jti window' now'
        (record_all clock calls (record_if_new clock jti window now s).1)).0
      ≡ false
record_if_new-once clock jti window now s calls window' now' new between before_end =
    record_if_new-seen clock jti _ window' now' _
      (record_all-keeps clock jti _ calls _ (record_if_new-stores clock jti window now s new)
        between)
      before_end
