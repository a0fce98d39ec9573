-- ===== src/Inspectors/Base.antt =====
-- What the tools of the inspectors share: the maps and slices that they return, what they take from
-- elsewhere, and counts over a list.
use go_debug_agent.Prelude.{
  ℕ, ◌+◌, ◌≡◌, Bool, List, [], ◌∷◌, if◌then◌else◌, arith, ◌++◌, suc, ◌==◌, Option, none, some,
}
use mathlib.Core.Option
use go_debug_agent.Prelude.Int.{pos}
use go_debug_agent.Prelude.Text.{Text}
use go_debug_agent.Registry.Value.{Value, int, arr, obj, Items, nil, cons, Fields, end, field}

-- fmt.Sprintf("%.1f%%", float64(a) / float64(b) * 100), the formats of a time, and of a
-- count per minute a duration
-- rounded to seconds, and a duration.
pub record Format : Type 0 where
  pub percent : ℕ → ℕ → Text
  pub rfc3339 : ℕ → Text
  pub rfc3339_nano : ℕ → Text
  pub per_minute : ℕ → ℕ → Text
  pub uptime : ℕ → Text
  pub duration : ℕ → Text

infixl 5 ◌>>=◌
abbrev pub ◌>>=◌ {ℓ κ} : {A : Type ℓ} {B : Type κ} → Option A → (A → Option B) → Option B
some a >>= f = f a
none >>= f = none

module _ {X : Type 0} where
  unfoldable pub fields_of : List (Text × Value X) → Fields X
  fields_of [] = end
  fields_of ((name, value) ∷ fs) = field name value (fields_of fs)

  unfoldable pub items_of : List (Value X) → Items X
  items_of [] = nil
  items_of (value ∷ vs) = cons value (items_of vs)

  -- map[string]any{...}
  unfoldable pub object : List (Text × Value X) → Value X
  object fs = obj (fields_of fs)

  unfoldable pub array : List (Value X) → Value X
  array vs = arr (items_of vs)

  abbrev pub count_value : ℕ → Value X
  count_value n = int (pos n)

-- The number of entries that pass a test: n := 0; for each, if the test holds, n++.
unfoldable pub count_if : {A : Type 0} → (A → Bool) → List A → ℕ
count_if p [] = 0
count_if p (x ∷ xs) = (if p x then 1 else 0) + count_if p xs

-- strings.Index(s, c) and bytes.IndexByte(s, c), with `none` for -1.
unfoldable pub index_byte : ℕ → Text → Option ℕ
index_byte c [] = none
index_byte c (d ∷ s) = if d == c then some 0 else Option.map suc (index_byte c s)

pub count_if-append :
    {A : Type 0} (p : A → Bool) (xs ys : List A)
    → count_if p (xs ++ ys) ≡ count_if p xs + count_if p ys
unfolding count_if
count_if-append p [] ys = omega arith
count_if-append p (x ∷ xs) ys = omega (arith, count_if-append p xs ys)
