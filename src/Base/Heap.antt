-- ===== src/Base/Heap.antt =====
-- The records that a Go store reaches through pointers: two maps that hold one pointer share it.
use Prim.Native.Nat.{ℕ, suc}
use mathlib.Core.Path.{◌≡◌, refl}
use mathlib.Core.Logic.{inl, inr}
use mathlib.Core.Bool.{Bool, false, ◌||◌}
use mathlib.Core.Option
use mathlib.Core.Option.{Option, none, some}
use mathlib.Core.List.{List, [], ◌∷◌}
use native.Mathlib.Omega.{arith}
use regenerative_architectur.Base.Tests.{nat_eq, Option-cases, if◌then◌else◌}

pub record Heap {ℓ} (A : Type ℓ) : Type ℓ where
  pub cell : ℕ → Option A
  pub next : ℕ

abbrev pub has : ℕ → List ℕ → Bool
has q [] = false
has q (p ∷ ps) = nat_eq q p || has q ps

module _ {ℓ} {A : Type ℓ} where
  abbrev pub empty : Heap A
  empty = record { cell = λ p. none; next = 0 }

  -- A fresh pointer to a value.
  abbrev pub alloc : A → Heap A → Heap A
  alloc a h = record { cell = λ p. if nat_eq p h.next then some a else h.cell p; next = suc h.next }

  -- Read through a pointer that may be nil.
  abbrev pub read : Heap A → Option ℕ → Option A
  read h none = none
  read h (some p) = h.cell p

  -- Assign to fields of the record behind a pointer.
  abbrev pub modify : ℕ → (A → A) → Heap A → Heap A
  modify p f h = record h { cell = λ q. if nat_eq q p then Option.map f (h.cell q) else h.cell q }

  -- The same, for each of several pointers.
  unfoldable pub modify_all : List ℕ → (A → A) → Heap A → Heap A
  modify_all [] f h = h
  modify_all (p ∷ ps) f h = modify_all ps f (modify p f h)

  -- Each pointer's record is changed once, also if it is visited twice.
  pub cell-modify_all :
      (ps : List ℕ) (f : A → A) (h : Heap A) (q : ℕ)
      → ((a : A) → f (f a) ≡ f a)
      → (modify_all ps f h).cell q ≡ (if has q ps then Option.map f (h.cell q) else h.cell q)
  unfolding modify_all
  cell-modify_all [] f h q idem = refl
  cell-modify_all (p ∷ ps) f h q idem = elim (Option-cases (h.cell q)) [
    | inl e ↦ ground (arith, e, cell-modify_all ps f (modify p f h) q idem)
    | inr (a, e) ↦ ground (arith, e, idem a, cell-modify_all ps f (modify p f h) q idem)
  ]

  pub next-modify_all : (ps : List ℕ) (f : A → A) (h : Heap A) → (modify_all ps f h).next ≡ h.next
  unfolding modify_all
  next-modify_all [] f h = refl
  next-modify_all (p ∷ ps) f h = next-modify_all ps f (modify p f h)
