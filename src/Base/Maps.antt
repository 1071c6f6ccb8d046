-- ===== src/Base/Maps.antt =====
-- A Go map with text keys, as an association list that holds each key at most once.
use Prim.Native.String.{String}
use mathlib.Core.Path.{◌≡◌}
use mathlib.Core.Option.{Option, none, some}
use mathlib.Core.List.{List, [], ◌∷◌}
use native.Mathlib.Omega.{arith}
use text.Mathlib.Text.{◌==◌}
use text.Mathlib.TextEquality.{eq_iff}
use text.Mathlib.TextPositions.{eq_refl}
use regenerative_architectur.Base.Tests.{if◌then◌else◌}

module _ {ℓ} {V : Type ℓ} where
  -- `v, ok := m[k]`
  unfoldable pub find : String → List (String × V) → Option V
  find k [] = none
  find k ((j, v) ∷ m) = if k == j then some v else find k m

  -- `delete(m, k)`
  unfoldable pub remove : String → List (String × V) → List (String × V)
  remove k [] = []
  remove k ((j, v) ∷ m) = let rest = remove k m in if k == j then rest else (j, v) ∷ rest

  -- `m[k] = v`
  unfoldable pub put : String → V → List (String × V) → List (String × V)
  put k v m = (k, v) ∷ remove k m

  pub find-remove :
      (j k : String) (m : List (String × V))
      → find j (remove k m) ≡ (if j == k then none else find j m)
  unfolding find remove
  find-remove j k [] = ground arith
  find-remove j k ((i, v) ∷ m) =
      ground (arith, eq_iff j k, eq_iff k i, eq_iff j i, find-remove j k m)

  pub find-put :
      (j k : String) (v : V) (m : List (String × V))
      → find j (put k v m) ≡ (if j == k then some v else find j m)
  unfolding find put
  find-put j k v m = ground (arith, eq_iff j k, find-remove j k m)

  pub find-put_self : (k : String) (v : V) (m : List (String × V)) → find k (put k v m) ≡ some v
  find-put_self k v m = simp (find-put, eq_refl)
