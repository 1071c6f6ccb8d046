-- ===== src/Stores/RefreshTokens/Abstract.antt =====
-- What memory/refresh_tokens.go promises, without pointers: values found by hash and by identifier.
use mathlib.Core.Option
use regenerative_architectur.Base.{
  String, ◌||◌, Option, none, some, List, [], ◌∷◌, ◌≡◌, ◌==◌, if◌then◌else◌,
}
use regenerative_architectur.Oauth2.Records.{RefreshTokenRecord, Result, ok, err, internal}
use regenerative_architectur.Stores.RefreshTokens.{
  RefreshTokenStore, stored, save, rotate, mark_rotated, revoke_family, revoke_in,
}

pub record TokenMaps : Type 0 where
  pub by_hash : String → Option RefreshTokenRecord
  pub by_id : String → Option RefreshTokenRecord

abbrev pub no_tokens : TokenMaps
no_tokens = record { by_hash = λ h. none; by_id = λ i. none }

-- Enters a record under its hash and its identifier.
abbrev pub enter : RefreshTokenRecord → TokenMaps → TokenMaps
enter rec a = record {
  by_hash = λ h. if h == rec.hash then some (stored rec) else a.by_hash h;
  by_id = λ i. if i == rec.id then some (stored rec) else a.by_id i;
}

-- Changes every record.
abbrev pub change : (RefreshTokenRecord → RefreshTokenRecord) → TokenMaps → TokenMaps
change f a = record {
  by_hash = λ h. Option.map f (a.by_hash h);
  by_id = λ i. Option.map f (a.by_id i);
}

-- Changes the record with an identifier.
abbrev pub at_id :
    String → (RefreshTokenRecord → RefreshTokenRecord) → RefreshTokenRecord → RefreshTokenRecord
at_id id f r = if r.id == id then f r else r

abbrev succeed :
    String
    → RefreshTokenRecord
    → Option RefreshTokenRecord
    → TokenMaps
    → Result (Option RefreshTokenRecord) × TokenMaps
succeed id rec none a = (err (internal "parent refresh token not found"), a)
succeed id rec (some parent) a =
    if parent.rotated || parent.revoked
    then (ok none, a)
    else (ok (some (stored rec)), enter rec (change (at_id id mark_rotated) a))

-- A rotation: the parent, if it is live, is marked, and its successor is entered.
abbrev pub succession :
    String → RefreshTokenRecord → TokenMaps → Result (Option RefreshTokenRecord) × TokenMaps
succession id rec a = succeed id rec (a.by_id id) a

-- The changes that the use cases ask of the store.
pub data Command : Type 0 where
  save_token : RefreshTokenRecord → Command
  rotate_token : String → RefreshTokenRecord → Command
  revoke_tokens : String → Command

-- What a command answers: only a rotation does.
abbrev pub Answer : Type 0
Answer = Option (Result (Option RefreshTokenRecord))

unfoldable pub perform : Command → RefreshTokenStore → Answer × RefreshTokenStore
perform (save_token rec) s = (none, save rec s)
perform (rotate_token id rec) s = let (answer, t) = rotate id rec s in (some answer, t)
perform (revoke_tokens family) s = (none, revoke_family family s)

unfoldable pub promise : Command → TokenMaps → Answer × TokenMaps
promise (save_token rec) a = (none, enter rec a)
promise (rotate_token id rec) a = let (answer, b) = succession id rec a in (some answer, b)
promise (revoke_tokens family) a = (none, change (revoke_in family) a)

unfoldable pub perform_all : List Command → RefreshTokenStore → List Answer × RefreshTokenStore
perform_all [] s = ([], s)
perform_all (c ∷ cs) s =
    let (answer, t) = perform c s in let (answers, u) = perform_all cs t in (answer ∷ answers, u)

unfoldable pub promise_all : List Command → TokenMaps → List Answer × TokenMaps
promise_all [] a = ([], a)
promise_all (c ∷ cs) a =
    let (answer, b) = promise c a in let (answers, d) = promise_all cs b in (answer ∷ answers, d)

-- Neither the hash nor the identifier of a record is in use.
abbrev pub IsUnused : RefreshTokenRecord → TokenMaps → Type 0
IsUnused rec a = (a.by_hash rec.hash ≡ none) × (a.by_id rec.id ≡ none)

abbrev pub IsFresh : Command → TokenMaps → Type 0
IsFresh (save_token rec) a = IsUnused rec a
IsFresh (rotate_token id rec) a = IsUnused rec a
IsFresh (revoke_tokens family) a = Unit

-- Every record that a sequence of commands stores is new when its turn comes.
abbrev pub AllFresh : List Command → TokenMaps → Type 0
AllFresh [] a = Unit
AllFresh (c ∷ cs) a = IsFresh c a × AllFresh cs (promise c a).1
