-- ===== src/Schema/Usable.antt =====
-- What `ValidateValue` relies on in a schema, and that `Check` establishes it.
use artest_cli.Base.{
  ℕ, zero, suc, ◌≡◌, refl, Bool, true, false, not, ◌&&◌, Option, none, some, List, [], ◌∷◌, map,
  All, String, str_eq, ◌⊎◌, inl, inr, Bool-cases, arith,
}
use artest_cli.Base.Int.{pos, negsuc}
use artest_cli.Diagnostics.{OperationResult, returned, succeeded}
use artest_cli.Json.{
  Json, View, null, opaque, boolean, signed, unsigned, float, text, array, object, is_boolean,
  is_number_integer, members, elements, text_of,
}
use artest_cli.Schema.Check.{
  ◌then_check◌, require, property, declared_type, absent_or, is_size, is_negative, check,
  check_typed, check_properties, check_children, check_required, check_names, check_items,
  check_sizes, size_keywords,
}

-- A check that reports no error.
unfoldable pub Succeeds : OperationResult → Type 0
Succeeds r = succeeded r ≡ true

pub then_check-Succeeds :
    (r k : OperationResult) → Succeeds (r then_check k) → Succeeds r × Succeeds k
unfolding Succeeds ◌then_check◌
then_check-Succeeds r k h = elim (Bool-cases (succeeded r)) [
  | inl y ↦ (y, rw y at h)
  | inr n ↦ cc (n, rw n at h)
]

pub require-Succeeds :
    (b : Bool) (r : OperationResult) → succeeded r ≡ false → Succeeds (require b r) → b ≡ true
unfolding Succeeds require
require-Succeeds true r f h = refl
require-Succeeds false r f h = cc

pub not-Succeeds : (r : OperationResult) → succeeded r ≡ false → Succeeds r → ⊥
unfolding Succeeds
not-Succeeds r f h = cc

-- A check that depends on a value that may be missing.
pub option-Succeeds :
    {A : Type 0} (o : Option A) (r : OperationResult) (k : A → OperationResult)
    → Succeeds (elim o [ none ↦ r | some a ↦ k a ])
    → ((o ≡ none) × Succeeds r) ⊎ ((a : A) × (o ≡ some a) × Succeeds (k a))
option-Succeeds none r k h = inl (refl, h)
option-Succeeds (some a) r k h = inr (a, refl, h)

-- If a member is present, it satisfies a predicate.
abbrev pub IfPresent : {A : Type 0} → (A → Type 0) → Option A → Type 0
IfPresent P none = Unit
IfPresent P (some v) = P v

module _ (j : Json) where
  open j use {Value, view, get_size, get_size_signed, get_size_unsigned}

  abbrev pub limits : List String
  limits = map (λ p. p.0) (size_keywords j)

  -- A limit that converts to a size.
  abbrev pub IsLimit : Value → Type 0
  IsLimit m = (n : ℕ) × (get_size m ≡ returned n)

  abbrev pub IsText : Value → Type 0
  IsText v = (s : String) × (text_of (view v) ≡ some s)

  abbrev pub IsBoolean : Value → Type 0
  IsBoolean v = (b : Bool) × (view v ≡ boolean b)

  -- What the conversions in `ValidateValue` need, down to a number of levels.
  unfoldable pub IsUsable : ℕ → Value → Type 0
  IsUsable zero s = ⊥
  IsUsable (suc levels) s =
      ((t : String) × (declared_type j s ≡ some t))
      × All (λ k. IfPresent IsLimit (property j k s)) limits
      × IfPresent (λ r. All IsText (elements (view r))) (property j "required" s)
      × IfPresent IsBoolean (property j "additionalProperties" s)
      × IfPresent (λ ps. All (λ p. IsUsable levels p.1) (members (view ps)))
          (property j "properties" s)
      × IfPresent (IsUsable levels) (property j "items" s)

  absent_or_lem :
      (test : Value → Bool) (o : Option Value)
      → absent_or j test o ≡ true
      → IfPresent (λ v. test v ≡ true) o
  absent_or_lem test none h = tt
  absent_or_lem test (some v) h = h

  is_size-IsLimit :
      (v : Value) (x : View Value j.Float)
      → view v ≡ x
      → (is_number_integer x && not (is_negative j x)) ≡ true
      → IsLimit v
  is_size-IsLimit v (unsigned n) e h = (n, get_size_unsigned v n e)
  is_size-IsLimit v (signed (pos n)) e h = (n, get_size_signed v n e)
  is_size-IsLimit v (signed (negsuc n)) e h = cc
  is_size-IsLimit v null e h = cc
  is_size-IsLimit v opaque e h = cc
  is_size-IsLimit v (boolean b) e h = cc
  is_size-IsLimit v (float f) e h = cc
  is_size-IsLimit v (text s) e h = cc
  is_size-IsLimit v (array xs) e h = cc
  is_size-IsLimit v (object ms) e h = cc

  present-IsLimit :
      (type kind : String) (o : Option Value)
      → absent_or j (λ v. is_size j v && str_eq type kind) o ≡ true
      → IfPresent IsLimit o
  present-IsLimit type kind none h = tt
  present-IsLimit type kind (some v) h = is_size-IsLimit v (view v) refl (ground arith)

  check_sizes-IsLimit :
      (type : String) (s : Value) (path : String) (ks : List (String × String))
      → Succeeds (check_sizes j type s path ks)
      → All (λ k. IfPresent IsLimit (property j k s)) (map (λ p. p.0) ks)
  unfolding check_sizes
  check_sizes-IsLimit type s path [] h = tt
  check_sizes-IsLimit type s path ((key, kind) ∷ ks) h =
      let (a, b) = then_check-Succeeds _ _ h in
      (
        present-IsLimit type kind (property j key s) (require-Succeeds _ _ refl a),
        check_sizes-IsLimit type s path ks b,
      )

  check_names-IsText :
      (s : Value) (path : String) (names : List String) (vs : List Value)
      → Succeeds (check_names j s path names vs)
      → All IsText vs
  unfolding check_names
  check_names-IsText s path names [] h = tt
  check_names-IsText s path names (v ∷ vs) h = elim (option-Succeeds (text_of (view v)) _ _ h) [
    | inl (n, f) ↦ absurd (not-Succeeds _ refl f)
    | inr (t, e, f) ↦
        ((t, e), check_names-IsText s path (t ∷ names) vs (then_check-Succeeds _ _ f).1)
  ]

  check_required-IsText :
      (type : String) (s : Value) (path : String)
      → Succeeds (check_required j type s path)
      → IfPresent (λ r. All IsText (elements (view r))) (property j "required" s)
  unfolding check_required
  check_required-IsText type s path h = elim (option-Succeeds (property j "required" s) _ _ h) [
    | inl (n, f) ↦ rw n tt
    | inr (r, e, f) ↦
        rw e (check_names-IsText s path [] (elements (view r)) (then_check-Succeeds _ _ f).1)
  ]

  present-IsBoolean :
      (type : String) (o : Option Value)
      → absent_or j (λ v. str_eq type "object" && is_boolean (view v)) o ≡ true
      → IfPresent IsBoolean o
  present-IsBoolean type none h = tt
  present-IsBoolean type (some v) h = stored (view v) refl (ground arith)
    where
      stored : (x : View Value j.Float) → view v ≡ x → is_boolean x ≡ true → IsBoolean v
      stored (boolean b) e h = (b, e)
      stored null e h = cc
      stored opaque e h = cc
      stored (signed z) e h = cc
      stored (unsigned n) e h = cc
      stored (float f) e h = cc
      stored (text t) e h = cc
      stored (array xs) e h = cc
      stored (object ms) e h = cc

  module _ (levels : ℕ)
      (ih : (s : Value) (path : String)
        → Succeeds (check j levels s path)
        → IsUsable levels s) where
    check_children-IsUsable :
        (path : String) (ms : List (String × Value))
        → Succeeds (check_children j (check j levels) path ms)
        → All (λ p. IsUsable levels p.1) ms
    unfolding check_children
    check_children-IsUsable path [] h = tt
    check_children-IsUsable path ((key, child) ∷ ms) h =
        let (a, b) = then_check-Succeeds _ _ h in (ih child _ a, check_children-IsUsable path ms b)

    check_properties-IsUsable :
        (type : String) (s : Value) (path : String)
        → Succeeds (check_properties j (check j levels) type s path)
        → IfPresent
            (λ ps. All (λ p. IsUsable levels p.1) (members (view ps)))
            (property j "properties" s)
    unfolding check_properties
    check_properties-IsUsable type s path h =
        elim (option-Succeeds (property j "properties" s) _ _ h) [
          | inl (n, f) ↦ rw n tt
          | inr (ps, e, f) ↦
              rw e (check_children-IsUsable path (members (view ps)) (then_check-Succeeds _ _ f).1)
        ]

    check_items-IsUsable :
        (type : String) (s : Value) (path : String)
        → Succeeds (check_items j (check j levels) type s path)
        → IfPresent (IsUsable levels) (property j "items" s)
    unfolding check_items
    check_items-IsUsable type s path h = elim (option-Succeeds (property j "items" s) _ _ h) [
      | inl (n, f) ↦ rw n tt
      | inr (i, e, f) ↦ rw e (ih i _ (then_check-Succeeds _ _ f).1)
    ]

    check_typed-IsUsable :
        (type : String) (s : Value) (path : String)
        → declared_type j s ≡ some type
        → Succeeds (check_typed j (check j levels) type s path)
        → IsUsable (suc levels) s
    unfolding check_typed IsUsable
    check_typed-IsUsable type s path e h =
        let (_, h1) = then_check-Succeeds _ _ h in
        let (_, h2) = then_check-Succeeds _ _ h1 in
        let (_, h3) = then_check-Succeeds _ _ h2 in
        let (sizes, h4) = then_check-Succeeds _ _ h3 in
        let (properties, h5) = then_check-Succeeds _ _ h4 in
        let (required, h6) = then_check-Succeeds _ _ h5 in
        let (others, items) = then_check-Succeeds _ _ h6 in
        (
          (type, e),
          check_sizes-IsLimit type s path (size_keywords j) sizes,
          check_required-IsText type s path required,
          present-IsBoolean type (property j "additionalProperties" s)
              (require-Succeeds _ _ refl others),
          check_properties-IsUsable type s path properties,
          check_items-IsUsable type s path items,
        )

  -- A schema that `Check` accepts has all that `ValidateValue` relies on, at every level.
  pub check-IsUsable :
      (levels : ℕ) (s : Value) (path : String)
      → Succeeds (check j levels s path)
      → IsUsable levels s
  unfolding check
  check-IsUsable zero s path h = absurd (not-Succeeds _ refl h)
  check-IsUsable (suc levels) s path h =
      let (_, h1) = then_check-Succeeds _ _ h in
      let (_, h2) = then_check-Succeeds _ _ h1 in
      elim (option-Succeeds (declared_type j s) _ _ h2) [
        | inl (n, f) ↦ absurd (not-Succeeds _ refl f)
        | inr (type, e, f) ↦ check_typed-IsUsable levels (check-IsUsable levels) type s path e f
      ]
