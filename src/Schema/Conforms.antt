-- ===== src/Schema/Conforms.antt =====
-- The values that a schema describes, stated without the control flow of the validator.
use artest_cli.Base.{
  ℕ, zero, suc, ◌≡◌, true, false, ◌≤◌, none, some, List, [], ◌∷◌, All, length, String, ◌⊎◌,
}
use artest_cli.Diagnostics.{returned}
use artest_cli.Json.{Json, View, text, array, object, is_number, elements, text_of}
use artest_cli.Registry.Creators.{holds}
use artest_cli.Schema.Check.{property, declared_type}
use artest_cli.Schema.Usable.{IfPresent}
use artest_cli.Schema.Validate.{matches, characters, allows_others, child, required_names}

-- Some entry satisfies a predicate.
abbrev pub Some : {A : Type 0} → (A → Type 0) → List A → Type 0
Some P [] = ⊥
Some P (x ∷ xs) = P x ⊎ Some P xs

module _ (j : Json) where
  open j use {Value, view, equal, less, greater, get_size}

  abbrev pub AtLeast : ℕ → Value → Type 0
  AtLeast n m = (k : ℕ) × (get_size m ≡ returned k) × (k ≤ n)

  abbrev pub AtMost : ℕ → Value → Type 0
  AtMost n m = (k : ℕ) × (get_size m ≡ returned k) × (n ≤ k)

  -- A number within its bounds, a text or an array of a length within its bounds.
  abbrev pub InRange : Value → Value → Type 0
  InRange s v =
      is_number (view v) ≡ true
      → IfPresent (λ m. less v m ≡ false) (property j "minimum" s)
        × IfPresent (λ m. greater v m ≡ false) (property j "maximum" s)

  abbrev pub HasLength : Value → View Value j.Float → Type 0
  HasLength s (text t) =
      IfPresent (AtLeast (characters j t)) (property j "minLength" s)
      × IfPresent (AtMost (characters j t)) (property j "maxLength" s)
  HasLength s (array xs) =
      IfPresent (AtLeast (length xs)) (property j "minItems" s)
      × IfPresent (AtMost (length xs)) (property j "maxItems" s)
  HasLength s _ = Unit

  abbrev pub IsListed : Value → Value → Type 0
  IsListed s v =
      IfPresent (λ e. Some (λ item. equal item v ≡ true) (elements (view e))) (property j "enum" s)

  -- The value has the member that a required name names.
  abbrev pub HasMember : List (String × Value) → Value → Type 0
  HasMember ms r = (name : String) × (text_of (view r) ≡ some name) × (holds name ms ≡ true)

  module _ (Describes : Value → Value → Type 0) where
    -- A declared member conforms to its schema; others are allowed by the schema.
    abbrev pub MemberConforms : Value → String × Value → Type 0
    MemberConforms s (key, item) = elim (child j s key) [
      | some c ↦ Describes c item
      | none ↦ allows_others j s ≡ returned true
    ]

    abbrev pub PartsConform : Value → View Value j.Float → Type 0
    PartsConform s (object ms) = All (HasMember ms) (required_names j s) × All (MemberConforms s) ms
    PartsConform s (array xs) = IfPresent (λ items. All (Describes items) xs) (property j "items" s)
    PartsConform s _ = Unit

  -- The value is one that the schema describes, down to a number of levels.
  unfoldable pub Conforms : ℕ → Value → Value → Type 0
  Conforms zero s v = ⊥
  Conforms (suc levels) s v =
      ((type : String) × (declared_type j s ≡ some type) × (matches j type v ≡ true))
      × IsListed s v
      × InRange s v
      × HasLength s (view v)
      × PartsConform (Conforms levels) s (view v)
