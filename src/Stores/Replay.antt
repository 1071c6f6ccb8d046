-- ===== src/Stores/Replay.antt =====
-- memory/replay.go: replayStore, which DpopReplayStore and ClientAssertionReplayStore wrap.
pub mod Laws
use regenerative_architectur.Base.{
  ℕ, ◌+◌, String, Bool, true, false, Option, none, some, List, [], ◌∷◌, find, put, if◌then◌else◌,
}
use regenerative_architectur.Spec.{Time, seconds, before, or_clock}

abbrev pub ReplayStore : Type 0
ReplayStore = List (String × Time)

unfoldable pub new_replay_store : ReplayStore
new_replay_store = []

-- Entries that have run out are dropped.
unfoldable pub prune : Time → ReplayStore → ReplayStore
prune now [] = []
prune now ((k, expires_at) ∷ s) =
    let rest = prune now s in if before now expires_at then (k, expires_at) ∷ rest else rest

unfoldable pub record_if_new : Time → String → ℕ → Time → ReplayStore → Bool × ReplayStore
unfolding prune
record_if_new clock jti window_seconds now0 s =
    let now = or_clock clock now0 in
    elim (find jti (prune now s)) [
      | some _ ↦ (false, prune now s)
      | none ↦ (true, put jti (now + seconds window_seconds) (prune now s))
    ]
