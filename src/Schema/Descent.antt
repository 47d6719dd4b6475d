-- ===== src/Schema/Descent.antt =====
-- `ValidateValue` accepts exactly the values that a checked schema describes, and does not throw.
use artest_cli.Base.{
  ℕ, zero, suc, ◌≤◌, ◌≡◌, ◌↔◌, refl, sym, ap, subst, ◌∙◌, Bool, true, false, not, Option, none,
  some, List, [], ◌∷◌, All, length, ltb, String, ◌⧺◌, inl, inr, Bool-cases, Option-cases, arith,
  to_string, if◌then◌else◌,
}
use artest_cli.Diagnostics.{OperationResult, Outcome, returned, succeeded, success, failure}
use artest_cli.Json.{
  Json, View, null, opaque, boolean, signed, unsigned, float, text, array, object, members,
  elements, text_of,
}
use artest_cli.Registry.Creators.{holds}
use artest_cli.Schema.Check.{property, declared_type, check, depth_limit}
use artest_cli.Schema.Usable.{
  Succeeds, IfPresent, IsLimit, IsText, IsBoolean, IsUsable, limits, check-IsUsable,
}
use artest_cli.Schema.Validate.{
  ◌then◌, unless, matches, characters, sized, size_exceeds, either, validate_size,
  validate_required, allows_others, refuses_others, child, validate_members, validate_elements,
  required_names, validate_object, validate_array, validate_scalar, validate_value, validate,
}
use artest_cli.Schema.Depth.{Conforms-same}
use artest_cli.Schema.Conforms.{
  AtLeast, AtMost, HasLength, HasMember, MemberConforms, PartsConform, Conforms,
}
use artest_cli.Schema.Decides.{
  Decides, Tells, then-Decides, unless-Decides, success-Decides, map-Decides, either-Tells,
  unless-Tells, lookup-All, some-Decides,
}
use artest_cli.Schema.Exact.{IsListed-Decides, InRange-Decides, AtLeast-Tells, AtMost-Tells}

module _ (j : Json) where
  open j use {Value, view, equal, less, greater, get_size}

  size-Decides :
      (s v : Value) (path : String)
      → All (λ k. IfPresent (IsLimit j) (property j k s)) (limits j)
      → Decides (HasLength j s (view v)) (validate_size j s v path)
  unfolding validate_size
  size-Decides s v path l = at (view v)
    where
      bounds :
          (n : ℕ) (lo hi : String)
          → IfPresent (IsLimit j) (property j lo s)
          → IfPresent (IsLimit j) (property j hi s)
          → Decides
              (IfPresent (AtLeast j n) (property j lo s) × IfPresent (AtMost j n) (property j hi s))
              (unless
                (either
                  (size_exceeds j ltb (property j lo s) n)
                  (size_exceeds j (λ a b. ltb b a) (property j hi s) n))
                (failure "PARAMETER_SIZE_INVALID" "Value has an invalid length." path))
      bounds n lo hi a b = unless-Tells _ _ _ refl (
          either-Tells _ _ _ _ (AtLeast-Tells j (property j lo s) n a)
            (AtMost-Tells j (property j hi s) n b))

      at :
          (x : View Value j.Float)
          → Decides (HasLength j s x) (elim (sized j x) as (λ o. Outcome OperationResult) [
            | none ↦ returned success
            | some (size, minimum, maximum) ↦
                unless
                  (either
                    (size_exceeds j ltb (property j minimum s) size)
                    (size_exceeds j (λ a b. ltb b a) (property j maximum s) size))
                  (failure "PARAMETER_SIZE_INVALID" "Value has an invalid length." path)
          ])
      at (text t) = bounds (characters j t) "minLength" "maxLength" l.0 l.1.0
      at (array xs) = bounds (length xs) "minItems" "maxItems" l.1.1.0 l.1.1.1.0
      at null = success-Decides _ tt
      at opaque = success-Decides _ tt
      at (boolean b) = success-Decides _ tt
      at (signed z) = success-Decides _ tt
      at (unsigned n) = success-Decides _ tt
      at (float f) = success-Decides _ tt
      at (object ms) = success-Decides _ tt

  required-Decides :
      (ms : List (String × Value)) (path : String) (rs : List Value)
      → All (IsText j) rs
      → Decides (All (HasMember j ms) rs) (validate_required j ms path rs)
  unfolding validate_required
  required-Decides ms path [] a = success-Decides _ tt
  required-Decides ms path (r ∷ rs) ((name, e), a) = some-Decides _ (text_of (view r)) _ _ name e (
      then-Decides _ _ _ _
        (map-Decides _ _ _ (λ h. (name, e, ground arith))
          (λ h. has h.0 ms h.2 (name_eq h.0 (sym h.1 ∙ e)))
          (unless-Decides (not (holds name ms)) _ refl))
        (required-Decides ms path rs a))
    where
      name_eq : (n : String) → ◌≡◌ {A = Option String} (some n) (some name) → n ≡ name
      name_eq n h = cc

      has :
          (n : String) (ms : List (String × Value))
          → holds n ms ≡ true
          → n ≡ name
          → not (holds name ms) ≡ false
      has n ms h g = cc

  others-Tells :
      (s : Value)
      → IfPresent (IsBoolean j) (property j "additionalProperties" s)
      → Tells (allows_others j s ≡ returned true) (refuses_others (allows_others j s))
  others-Tells s b = elim (Option-cases (property j "additionalProperties" s)) [
    | inl n ↦
        rw (n, refuses_others, allows_others)
          (record { answer = false; answers = refl; sound = λ h. refl; complete = λ h. refl })
    | inr (a, e) ↦
        let (x, f) = subst (IfPresent (IsBoolean j)) e b in
        rw (e, f, refuses_others, allows_others)
          (record {
            answer = not x;
            answers = refl;
            sound = λ h. rw (flip x h) refl;
            complete = λ h. cc (h);
          })
  ]
    where
      flip : (x : Bool) → not x ≡ false → x ≡ true
      flip x h = ground arith

  module _ (levels : ℕ)
      (ih : (s v : Value) (path : String)
        → IsUsable j levels s
        → Decides (Conforms j levels s v) (validate_value j levels s v path)) where
    member-Decides :
        (s : Value) (key : String) (item : Value) (path : String)
        → IfPresent (IsBoolean j) (property j "additionalProperties" s)
        → IfPresent
            (λ ps. All (λ p. IsUsable j levels p.1) (members (view ps)))
            (property j "properties" s)
        → Decides (MemberConforms j (Conforms j levels) s (key, item)) (elim (child j s key) [
          | some c ↦ validate_value j levels c item path
          | none ↦
              unless
                (refuses_others (allows_others j s))
                (failure "PARAMETER_UNKNOWN" "Property is not declared by the schema." path)
        ])
    member-Decides s key item path b u = at (child j s key) refl
      where
        usable :
            (c : Value) (o : Option Value)
            → property j "properties" s ≡ o
            → child j s key ≡ some c
            → IsUsable j levels c
        usable c none e f = cc
        usable c (some ps) e f =
            lookup-All (IsUsable j levels) key (members (view ps)) c (child_of e ∙ f)
              (subst (IfPresent (λ ps. All (λ p. IsUsable j levels p.1) (members (view ps)))) e u)
          where
            child_of : property j "properties" s ≡ some ps → property j key ps ≡ child j s key
            child_of e = rw (e, child) refl

        at :
            (o : Option Value)
            → child j s key ≡ o
            → Decides
                (elim o as (λ o. Type 0) [
                  | some c ↦ Conforms j levels c item
                  | none ↦ allows_others j s ≡ returned true
                ])
                (elim o as (λ o. Outcome OperationResult) [
                  | some c ↦ validate_value j levels c item path
                  | none ↦
                      unless
                        (refuses_others (allows_others j s))
                        (failure "PARAMETER_UNKNOWN" "Property is not declared by the schema." path)
                ])
        at none e = unless-Tells _ _ _ refl (others-Tells s b)
        at (some c) e = ih c item path (usable c (property j "properties" s) refl e)

    members-Decides :
        (s : Value) (path : String) (ms : List (String × Value))
        → IfPresent (IsBoolean j) (property j "additionalProperties" s)
        → IfPresent
            (λ ps. All (λ p. IsUsable j levels p.1) (members (view ps)))
            (property j "properties" s)
        → Decides
            (All (MemberConforms j (Conforms j levels) s) ms)
            (validate_members j (validate_value j levels) s path ms)
    unfolding validate_members
    members-Decides s path [] b u = success-Decides _ tt
    members-Decides s path ((key, item) ∷ ms) b u =
        then-Decides _ _ _ _ (member-Decides s key item (path ⧺ "/" ⧺ key) b u)
          (members-Decides s path ms b u)

    elements-Decides :
        (items : Value) (path : String) (i : ℕ) (xs : List Value)
        → IsUsable j levels items
        → Decides
            (All (Conforms j levels items) xs)
            (validate_elements j (validate_value j levels) items path i xs)
    unfolding validate_elements
    elements-Decides items path i [] u = success-Decides _ tt
    elements-Decides items path i (x ∷ xs) u =
        then-Decides _ _ _ _ (ih items x (path ⧺ "/" ⧺ to_string i) u)
          (elements-Decides items path (suc i) xs u)

    required_at :
        (s : Value)
        → IfPresent (λ r. All (IsText j) (elements (view r))) (property j "required" s)
        → All (IsText j) (required_names j s)
    required_at s r = elim (Option-cases (property j "required" s)) [
      | inl n ↦ rw (n, required_names) tt
      | inr (rs, e) ↦
          rw (e, required_names) (subst (IfPresent (λ r. All (IsText j) (elements (view r)))) e r)
    ]

    object-Decides :
        (s : Value) (path : String) (x : View Value j.Float)
        → IsUsable j (suc levels) s
        → Decides (PartsConform j (Conforms j levels) s x) (
            validate_object j (validate_value j levels) s path x
            then validate_array j (validate_value j levels) s path x)
    unfolding validate_object validate_array IsUsable ◌then◌
    object-Decides s path (object ms) (_, _, r, b, u, i) =
        map-Decides _ _ _ (λ h. h.0) (λ h. (h, tt))
          (then-Decides _ _ _ _
            (then-Decides _ _ _ _ (required-Decides ms path (required_names j s) (required_at s r))
              (members-Decides s path ms b u))
            (success-Decides (Unit {0}) tt))
    object-Decides s path (array xs) (_, _, r, b, u, i) =
        elim (Option-cases (property j "items" s)) [
          | inl n ↦ rw (n, validate_array) (success-Decides _ tt)
          | inr (t, e) ↦
              rw (e, validate_array)
                (elements-Decides t path 0 xs (subst (IfPresent (IsUsable j levels)) e i))
        ]
    object-Decides s path null u = success-Decides _ tt
    object-Decides s path opaque u = success-Decides _ tt
    object-Decides s path (boolean b) u = success-Decides _ tt
    object-Decides s path (signed z) u = success-Decides _ tt
    object-Decides s path (unsigned n) u = success-Decides _ tt
    object-Decides s path (float f) u = success-Decides _ tt
    object-Decides s path (text t) u = success-Decides _ tt

    typed-Decides :
        (type : String) (s v : Value) (path : String)
        → declared_type j s ≡ some type
        → IsUsable j (suc levels) s
        → Decides (Conforms j (suc levels) s v) (
            validate_scalar j type s v path
            then validate_object j (validate_value j levels) s path (view v)
            then validate_array j (validate_value j levels) s path (view v))
    unfolding validate_scalar Conforms IsUsable
    typed-Decides type s v path e u =
        map-Decides _ _ _
          (λ h. ((type, e, ground (arith, h.0.0)), h.0.1.0, h.0.1.1.0, h.0.1.1.1, h.1))
          (λ h. ((typed h.0.0 (sym h.0.1 ∙ e) h.0.2, (h.1, (h.2, h.3))), h.4))
          (then-Decides _ _ _ _
            (then-Decides _ _ _ _ (unless-Decides (not (matches j type v)) _ refl) (
              then-Decides _ _ _ _ (IsListed-Decides j s v _ refl)
                (then-Decides _ _ _ _ (InRange-Decides j s v _ refl) (size-Decides s v path u.1))))
            (object-Decides s path (view v) u))
      where
        typed :
            (t : String)
            → ◌≡◌ {A = Option String} (some t) (some type)
            → matches j t v ≡ true
            → not (matches j type v) ≡ false
        typed t g h =
            let e1 : t ≡ type = cc in subst (λ x. not (matches j x v) ≡ false) e1 (ap not h)

  pub validate_value-Decides :
      (levels : ℕ) (s v : Value) (path : String)
      → IsUsable j levels s
      → Decides (Conforms j levels s v) (validate_value j levels s v path)
  unfolding validate_value IsUsable
  validate_value-Decides zero s v path u = elim u [ ]
  validate_value-Decides (suc levels) s v path u =
      some-Decides _ (declared_type j s) _ _ u.0.0 u.0.1
        (typed-Decides levels (validate_value-Decides levels) u.0.0 s v path u.0.1 u)

  -- `Validate` never throws. It answers what `Check` says of the schema if that is a failure. If the
  -- schema passes, it succeeds exactly for the values that the schema describes down to the limit on
  -- the depth; and these are the values that it describes down to any greater depth, so the limit is
  -- never met.
  pub validate-Conforms :
      (s v : Value) (path : String)
      → (r : OperationResult) × (validate j s v path ≡ returned r)
        × ((succeeded r ≡ true)
            ↔ ((succeeded (check j depth_limit s "schema") ≡ true) × Conforms j depth_limit s v))
        × (succeeded (check j depth_limit s "schema") ≡ false → r ≡ check j depth_limit s "schema")
        × (succeeded (check j depth_limit s "schema") ≡ true
            → (levels : ℕ) → depth_limit ≤ levels
            → Conforms j depth_limit s v ↔ Conforms j levels s v)
  unfolding validate ◌then◌ Succeeds
  validate-Conforms s v path = elim (Bool-cases (succeeded (check j depth_limit s "schema"))) [
    | inr n ↦ (
      check j depth_limit s "schema",
      rw n refl,
      ((λ h. cc (h)), (λ h. cc (h.0))),
      (λ h. refl),
      (λ h. cc (n, h)),
    )
    | inl y ↦
        let u = check-IsUsable j depth_limit s "schema" y in
        let d = validate_value-Decides depth_limit s v path u in
        (
          d.result,
          rw y d.returns,
          ((λ h. (y, d.sound h)), (λ h. d.complete h.1)),
          (λ h. cc (y, h)),
          (λ h levels le. Conforms-same j depth_limit levels s v le u),
        )
  ]
