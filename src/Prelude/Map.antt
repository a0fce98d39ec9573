-- ===== src/Prelude/Map.antt =====
-- Go maps as association lists with one entry for a key. A range over a map visits its entries in
-- an order of the runtime's choice: code that ranges takes the visited list as an argument.
use Prim.Native.Nat.{ℕ, ◌+◌}
use mathlib.Core.Path.{◌≡◌, refl}
use mathlib.Core.Logic.{◌↔◌}
use mathlib.Core.Bool.{Bool, true}
use mathlib.Core.List.{List, [], ◌∷◌}
use mathlib.Core.Option.{Option, none, some}
use native.Mathlib.Omega.{arith}
use go_debug_agent.Prelude.Tests.{if◌then◌else◌, ◌==◌, ==_iff}
use go_debug_agent.Prelude.Int.{ℤ, int_eq, int_eq_iff}
use go_debug_agent.Prelude.Text.{Text, text_eq, text_eq_iff}
use go_debug_agent.Prelude.Lists.{length}

-- Keys with a Boolean equality.
pub record Key (K : Type 0) : Type 0 where
  pub beq : K → K → Bool
  pub beq_iff : (a b : K) → (beq a b ≡ true) ↔ (a ≡ b)

instance abbrev pub nat_key : Key ℕ
nat_key = record { beq = ◌==◌; beq_iff = ==_iff }

instance abbrev pub text_key : Key Text
text_key = record { beq = text_eq; beq_iff = text_eq_iff }

instance abbrev pub int_key : Key ℤ
int_key = record { beq = int_eq; beq_iff = int_eq_iff }

-- A measure of m[k], which is 0 where it is missing.
unfoldable pub value_or_zero {ℓ} : {V : Type ℓ} → (V → ℕ) → Option V → ℕ
value_or_zero f none = 0
value_or_zero f (some w) = f w

-- The same keys with other values.
unfoldable pub map_values {ℓ κ} :
    {K : Type 0} {V : Type ℓ} {V' : Type κ} → (V → V') → List (K × V) → List (K × V')
map_values f [] = []
map_values f ((k, v) ∷ m) = (k, f v) ∷ map_values f m

module _ {ℓ} {K : Type 0} ⦃e : Key K⦄ {V : Type ℓ} where
  -- m[k], with `none` for a missing key.
  unfoldable pub lookup : K → List (K × V) → Option V
  lookup k [] = none
  lookup k ((j, v) ∷ m) = if e.beq j k then some v else lookup k m

  -- m[k] = v
  unfoldable pub insert : K → V → List (K × V) → List (K × V)
  insert k v [] = (k, v) ∷ []
  insert k v ((j, w) ∷ m) = if e.beq j k then (j, v) ∷ m else (j, w) ∷ insert k v m

  -- delete(m, k)
  unfoldable pub delete : K → List (K × V) → List (K × V)
  delete k [] = []
  delete k ((j, v) ∷ m) = if e.beq j k then delete k m else (j, v) ∷ delete k m

  pub lookup-insert :
      (k j : K) (v : V) (m : List (K × V))
      → lookup j (insert k v m) ≡ (if e.beq k j then some v else lookup j m)
  unfolding lookup insert
  lookup-insert k j v [] = refl
  lookup-insert k j v ((i, w) ∷ m) =
      ground (arith, e.beq_iff k j, e.beq_iff i k, e.beq_iff i j, lookup-insert k j v m)

  pub lookup-delete :
      (k j : K) (m : List (K × V))
      → lookup j (delete k m) ≡ (if e.beq k j then none else lookup j m)
  unfolding lookup delete
  lookup-delete k j [] = ground arith
  lookup-delete k j ((i, w) ∷ m) =
      ground (arith, e.beq_iff k j, e.beq_iff i k, e.beq_iff i j, lookup-delete k j m)

  -- A map has an entry for a key that it did not hold, or keeps its number of entries.
  pub length-insert :
      (k : K) (v : V) (m : List (K × V))
      → length (insert k v m) ≡ elim (lookup k m) [ none ↦ length m + 1 | some _ ↦ length m ]
  unfolding lookup insert
  length-insert k v [] = omega arith
  length-insert k v ((i, w) ∷ m) = ground (arith, length-insert k v m)

  -- The sum of a measure of the values.
  unfoldable pub total : (V → ℕ) → List (K × V) → ℕ
  total f [] = 0
  total f ((j, w) ∷ m) = f w + total f m

  -- What a key stands for counts in the sum once, before and after.
  pub total-insert :
      (f : V → ℕ) (k : K) (v : V) (m : List (K × V))
      → total f (insert k v m) + value_or_zero f (lookup k m) ≡ total f m + f v
  unfolding lookup insert total value_or_zero
  total-insert f k v [] = omega arith
  total-insert f k v ((i, w) ∷ m) = ground (arith, total-insert f k v m)
