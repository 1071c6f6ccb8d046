-- ===== src/Stores/AuditEvents.antt =====
-- memory/audit_event_store.go: AuditEventStore, with RetentionCutoff of oauth2/ports. The index by
-- identifier is a search of the list, in which every identifier occurs once; the query of List is left out.
use regenerative_architectur.Base.{
  ℕ, zero, suc, ◌-◌, String, Bool, true, false, not, ◌&&◌, ◌||◌, Option, none, some, List, [], ◌∷◌,
  ◌++◌, ◌==◌, length, contains, find, nat_eq, if◌then◌else◌,
}
use regenerative_architectur.Spec.{Time, before}

pub record AuditEventRecord : Type 0 where
  pub id : String
  pub type : String
  pub tenant_id : String
  pub occurred_at : Time

pub record RetentionCutoff : Type 0 where
  -- The zero time is no cutoff.
  pub default : Time
  pub by_type : List (String × Time)
  pub keep : List String

-- Oldest first.
pub record AuditEventStore : Type 0 where
  pub events : List AuditEventRecord
  pub max_events : ℕ

unfoldable pub new_audit_event_store : ℕ → AuditEventStore
new_audit_event_store max_events = record {
  events = [];
  max_events = if nat_eq max_events 0 then 10000 else max_events;
}

unfoldable pub find_by_id : String → List AuditEventRecord → Option AuditEventRecord
find_by_id id [] = none
find_by_id id (rec ∷ events) = if rec.id == id then some rec else find_by_id id events

unfoldable pub drop : ℕ → List AuditEventRecord → List AuditEventRecord
drop zero events = events
drop (suc n) [] = []
drop (suc n) (rec ∷ events) = drop n events

abbrev pub is_known : Option AuditEventRecord → Bool
is_known none = false
is_known (some rec) = true

-- The events over the limit are dropped from the old end.
unfoldable pub append : AuditEventRecord → AuditEventStore → AuditEventStore
unfolding find_by_id drop
append rec s =
    if rec.id == "" || rec.type == "" || is_known (find_by_id rec.id s.events)
    then s
    else (let events = s.events ++ rec ∷ [] in
        record s { events = drop (length events - s.max_events) events })

abbrev pub or_default : Time → Option Time → Time
or_default default none = default
or_default default (some t) = t

-- What the sweep deletes.
unfoldable pub is_outdated : RetentionCutoff → AuditEventRecord → Bool
is_outdated cutoff rec =
    let until = or_default cutoff.default (find rec.type cutoff.by_type) in
    not (contains cutoff.keep rec.type) && not (nat_eq until 0) && before rec.occurred_at until

unfoldable pub delete_older_than :
    RetentionCutoff → List AuditEventRecord → ℕ × List AuditEventRecord
unfolding is_outdated
delete_older_than cutoff [] = (0, [])
delete_older_than cutoff (rec ∷ events) =
    let (deleted, kept) = delete_older_than cutoff events in
    if is_outdated cutoff rec then (suc deleted, kept) else (deleted, rec ∷ kept)
