-- ===== src/Authentication/Sessions/Others.antt =====
-- What RevokeOtherSessions leaves.
use regenerative_architectur.Base.{
  ◌≡◌, refl, ap, ◌∙◌, String, Bool, true, false, not, ◌&&◌, ◌||◌, inl, inr, Option, none, some,
  List, [], ◌∷◌, arith, ◌==◌, eq_iff, find, find-remove, Bool-cases, ltb, if◌then◌else◌,
}
use regenerative_architectur.Spec.{Time, before, or_clock}
use regenerative_architectur.Stores.Sessions.{
  LoginSession, SessionStore, delete, prune, sessions_of, list_by_sub,
}
use regenerative_architectur.Authentication.Sessions.{end_others, revoke_other_sessions}

-- Every session is stored once, under its identifier.
abbrev pub Keyed : SessionStore → Type 0
Keyed [] = Unit
Keyed ((k, sess) ∷ s) = (sess.id ≡ k) × (find k s ≡ none) × Keyed s

abbrev lists : String → List LoginSession → Bool
lists id [] = false
lists id (sess ∷ sessions) = sess.id == id || lists id sessions

-- What the loop leaves: a listed session goes, but for the one to keep.
find-end_others :
    (keep id : String) (now : Time) (sessions : List LoginSession) (s : SessionStore)
    → find id (end_others keep now sessions s).1
      ≡ (if not (id == keep) && lists id sessions then none else find id s)
unfolding end_others delete
find-end_others keep id now [] s = ground arith
find-end_others keep id now (x ∷ sessions) s = elim (Bool-cases (x.id == keep)) [
  | inl kept ↦
      let rest = find-end_others keep id now sessions s in
      rw (kept, end_others)
        (ground (arith, kept, rest, eq_iff x.id keep, eq_iff x.id id, eq_iff id keep))
  | inr ended ↦
      let rest = find-end_others keep id now sessions (delete x.id s) in
      rw (ended, end_others)
        (ground (
          arith,
          ended,
          rest,
          find-remove id x.id s,
          eq_iff x.id id,
          eq_iff id x.id,
          eq_iff id keep,
          eq_iff x.id keep,
        ))
]

-- A finished session of the user.
abbrev pub is_finished_of : String → LoginSession → Bool
is_finished_of sub sess = sess.sub == sub && not sess.authentication_pending

abbrev holds_of : String → Option LoginSession → Bool
holds_of sub none = false
holds_of sub (some sess) = is_finished_of sub sess

sessions_of-unstored :
    (sub id : String) (s : SessionStore)
    → Keyed s
    → find id s ≡ none
    → lists id (sessions_of sub s) ≡ false
unfolding find sessions_of
sessions_of-unstored sub id [] keyed h = refl
sessions_of-unstored sub id ((k, x) ∷ s) (key, once, keyed) h = elim (Bool-cases (id == k)) [
  | inl here ↦ absurd (ground (arith, h, here))
  | inr elsewhere ↦
      let missing : find id s ≡ none = ground (arith, h, elsewhere) in
      ground (
        arith,
        elsewhere,
        key,
        sessions_of-unstored sub id s keyed missing,
        eq_iff x.id id,
        eq_iff id k,
      )
]

-- A stored session is listed if it is a finished one of the user.
lists-sessions_of :
    (sub id : String) (s : SessionStore)
    → Keyed s
    → lists id (sessions_of sub s) ≡ holds_of sub (find id s)
unfolding find sessions_of
lists-sessions_of sub id [] keyed = refl
lists-sessions_of sub id ((k, x) ∷ s) (key, once, keyed) = elim (Bool-cases (id == k)) [
  | inl here ↦
      let is_k = (eq_iff id k).0 here in
      let missing : find id s ≡ none = rw is_k once in
      ground (arith, here, is_k, key, sessions_of-unstored sub id s keyed missing, eq_iff x.id id)
  | inr elsewhere ↦
      ground (arith, elsewhere, key, lists-sessions_of sub id s keyed, eq_iff x.id id, eq_iff id k)
]

-- A session whose time has passed is no longer there.
abbrev pub in_time : Time → Option LoginSession → Option LoginSession
in_time clock none = none
in_time clock (some sess) = if ltb sess.expires_at clock then none else some sess

find-prune :
    (clock : Time) (id : String) (s : SessionStore)
    → Keyed s
    → find id (prune clock s) ≡ in_time clock (find id s)
unfolding find prune
find-prune clock id [] keyed = refl
find-prune clock id ((k, x) ∷ s) (key, once, keyed) = elim (Bool-cases (id == k)) [
  | inl here ↦
      let missing : find id s ≡ none = rw ((eq_iff id k).0 here) once in
      ground (arith, here, missing, find-prune clock id s keyed)
  | inr elsewhere ↦ ground (arith, elsewhere, find-prune clock id s keyed)
]

prune-Keyed : (clock : Time) (s : SessionStore) → Keyed s → Keyed (prune clock s)
unfolding prune
prune-Keyed clock [] keyed = tt
prune-Keyed clock ((k, x) ∷ s) (key, once, keyed) = elim (Bool-cases (before x.expires_at clock)) [
  | inl late ↦ rw (late, prune) (prune-Keyed clock s keyed)
  | inr early ↦
      let missing : find k (prune clock s) ≡ none =
        find-prune clock k s keyed ∙ ap (λ o. in_time clock o) once in
      rw (early, prune) (key, missing, prune-Keyed clock s keyed)
]

-- What is left of a session that is not the one to keep.
abbrev pub without_finished : String → Option LoginSession → Option LoginSession
without_finished sub none = none
without_finished sub (some sess) = if is_finished_of sub sess then none else some sess

without-same :
    (sub : String) (b : Bool) (o : Option LoginSession)
    → (if not b && holds_of sub o then none else o) ≡ (if b then o else without_finished sub o)
without-same sub true o = refl
without-same sub false none = refl
without-same sub false (some sess) = refl

-- After the other sessions of a user were revoked, the store holds exactly what it held before, but for
-- the sessions whose time has passed and the finished sessions of the user other than the one to keep:
-- that one, those of other users and those that wait for authentication are left as they are. Each
-- session is stored once, under its identifier.
pub revoke_other_sessions-left :
    (clock : Time) (sub keep id : String) (now : Time) (s : SessionStore)
    → Keyed s
    → find id (revoke_other_sessions clock sub keep now s).1 ≡ (
        if id == keep
        then in_time clock (find id s)
        else without_finished sub (in_time clock (find id s)))
unfolding revoke_other_sessions list_by_sub
revoke_other_sessions-left clock sub keep id now s keyed =
    let pruned = prune clock s in
    find-end_others keep id (or_clock clock now) (sessions_of sub pruned) pruned
    ∙ rw (lists-sessions_of sub id pruned (prune-Keyed clock s keyed), find-prune clock id s keyed)
        (without-same sub (id == keep) (in_time clock (find id s)))
