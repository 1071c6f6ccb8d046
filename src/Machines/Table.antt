-- ===== src/Machines/Table.antt =====
-- The table search that the three state machines of ra-idp-go/internal/shared/spec share, and runs of
-- a machine over a list of events.
use mathlib.Core.Bool.{decide}
use regenerative_architectur.Base.{◌&&◌, Option, none, some, List, [], ◌∷◌, if◌then◌else◌}

pub record Transition (S E : Type 0) : Type 0 where
  pub from : S
  pub event : E
  pub to : S

abbrev pub row : {S E : Type 0} → S → E → S → Transition S E
row s e t = record { from = s; event = e; to = t }

-- The `for` loop of the Transition functions; `none` is their error.
module _ {S E : Type 0} (same_state : Discrete S) (same_event : Discrete E) where
  unfoldable pub find_transition : List (Transition S E) → S → E → Option S
  unfolding decide
  find_transition [] s e = none
  find_transition (t ∷ ts) s e =
      if decide (same_state t.from s) && decide (same_event t.event e)
      then some t.to
      else find_transition ts s e

-- A machine fed with events stops at the first one that it has no transition for.
module _ {S E : Type 0} (step : S → E → Option S) where
  unfoldable pub run : S → List E → Option S
  run s [] = some s
  run s (e ∷ es) = elim (step s e) [ none ↦ none | some t ↦ run t es ]
