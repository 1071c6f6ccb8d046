-- ===== src/Base/Lists.antt =====
-- Go's `slices.Contains` on texts, and predicates over lists.
use Prim.Native.Nat.{ℕ, suc}
use Prim.Native.String.{String}
use mathlib.Core.Path.{◌≡◌, refl}
use mathlib.Core.Bool.{Bool, true, false, ◌&&◌, ◌||◌}
use mathlib.Core.List.{List, [], ◌∷◌}
use native.Mathlib.Omega.{arith}
use text.Mathlib.Text.{◌==◌}
use text.Mathlib.TextEquality.{eq_iff}

abbrev pub length {ℓ} : {A : Type ℓ} → List A → ℕ
length [] = 0
length (x ∷ xs) = suc (length xs)

-- `slices.Contains(xs, a)`
unfoldable pub contains : List String → String → Bool
contains [] a = false
contains (x ∷ xs) a = a == x || contains xs a

-- Every member of the first list is in the second: a loop that fails on the first one missing.
unfoldable pub all_in : List String → List String → Bool
all_in [] ys = true
all_in (x ∷ xs) ys = contains ys x && all_in xs ys

abbrev pub All {ℓ κ} : {A : Type ℓ} → (A → Type κ) → List A → Type κ
All P [] = Unit
All P (x ∷ xs) = P x × All P xs

pub all_in-contains :
    (xs ys : List String) (a : String)
    → all_in xs ys ≡ true
    → contains xs a ≡ true
    → contains ys a ≡ true
unfolding contains all_in
all_in-contains [] ys a h c = ground arith
all_in-contains (x ∷ xs) ys a h c = ground (arith, eq_iff a x, all_in-contains xs ys a)

pub all_in-cons :
    (xs : List String) (y : String) (ys : List String)
    → all_in xs ys ≡ true
    → all_in xs (y ∷ ys) ≡ true
unfolding contains all_in
all_in-cons [] y ys h = refl
all_in-cons (x ∷ xs) y ys h = ground (arith, all_in-cons xs y ys)

pub all_in_refl : (xs : List String) → all_in xs xs ≡ true
unfolding contains all_in
all_in_refl [] = refl
all_in_refl (x ∷ xs) = ground (arith, eq_iff x x, all_in-cons xs x xs (all_in_refl xs))

pub all_in_trans :
    (xs ys zs : List String) → all_in xs ys ≡ true → all_in ys zs ≡ true → all_in xs zs ≡ true
unfolding all_in
all_in_trans [] ys zs h k = refl
all_in_trans (x ∷ xs) ys zs h k = ground (arith, all_in-contains ys zs x, all_in_trans xs ys zs)
