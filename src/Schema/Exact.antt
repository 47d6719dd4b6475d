-- ===== src/Schema/Exact.antt =====
-- The tests of `ValidateValue` that read the value alone decide their part of the description.
use artest_cli.Base.{
  ℕ, ◌≡◌, ◌↔◌, refl, sym, ap, ◌∙◌, Bool, true, false, not, ◌&&◌, ◌||◌, ◌≤◌, Option, none, some,
  List, [], ◌∷◌, ltb, inl, inr, Bool-cases, any, arith,
}
use artest_cli.Diagnostics.{OperationResult, Outcome, returned, succeeded}
use artest_cli.Json.{Json, is_number, elements}
use artest_cli.Schema.Check.{property}
use artest_cli.Schema.Usable.{IfPresent, IsLimit}
use artest_cli.Schema.Validate.{exceeds, unless, is_listed, out_of_range, size_exceeds}
use artest_cli.Schema.Conforms.{Some, AtLeast, AtMost, InRange, IsListed}
use artest_cli.Schema.Decides.{Decides, Tells, unless-Decides, map-Decides}

module _ (j : Json) where
  open j use {Value, view, equal, less, greater, get_size}

  any-Some :
      (v : Value) (es : List Value)
      → (any (λ i. equal i v) es ≡ true) ↔ Some (λ i. equal i v ≡ true) es
  any-Some v [] = ((λ h. cc (h)), (λ h. absurd h))
  any-Some v (e ∷ es) = elim (Bool-cases (equal e v)) [
    | inl y ↦ rw y ((λ h. inl refl), (λ h. refl))
    | inr n ↦ rw n (
      (λ h. inr ((any-Some v es).0 h)),
      (λ h. elim h [ inl x ↦ cc (x) | inr x ↦ (any-Some v es).1 x ]),
    )
  ]

  pub IsListed-Decides :
      (s v : Value) (r : OperationResult)
      → succeeded r ≡ false
      → Decides (IsListed j s v) (unless (returned (not (is_listed j (property j "enum" s) v))) r)
  IsListed-Decides s v r f = at (property j "enum" s)
    where
      at :
          (o : Option Value)
          → Decides
              (IfPresent (λ e. Some (λ item. equal item v ≡ true) (elements (view e))) o)
              (unless (returned (not (is_listed j o v))) r)
      at none = map-Decides _ _ _ (λ h. tt) (λ h. refl) (unless-Decides false r f)
      at (some e) =
          map-Decides _ _ _ (λ h. (any-Some v (elements (view e))).0 (ground arith))
            (λ h. ap not ((any-Some v (elements (view e))).1 h))
            (unless-Decides (not (any (λ i. equal i v) (elements (view e)))) r f)

  exceeds_lem :
      (compare : Value → Value → Bool) (o : Option Value) (v : Value)
      → (exceeds j compare o v ≡ false) ↔ IfPresent (λ m. compare v m ≡ false) o
  exceeds_lem compare none v = ((λ h. tt), (λ h. refl))
  exceeds_lem compare (some m) v = ((λ h. h), (λ h. h))

  pub InRange-Decides :
      (s v : Value) (r : OperationResult)
      → succeeded r ≡ false
      → Decides (InRange j s v) (unless (returned (out_of_range j s v)) r)
  InRange-Decides s v r f =
      map-Decides _ _ _
        (λ h n.
          let (a, b) = both (is_number (view v)) _ _ h n in
          (
            (exceeds_lem less (property j "minimum" s) v).0 a,
            (exceeds_lem greater (property j "maximum" s) v).0 b,
          ))
        (λ h.
          neither (is_number (view v)) _ _
            (λ n. (exceeds_lem less (property j "minimum" s) v).1 (h n).0)
            (λ n. (exceeds_lem greater (property j "maximum" s) v).1 (h n).1))
        (unless-Decides (out_of_range j s v) r f)
    where
      both : (n a b : Bool) → (n && (a || b)) ≡ false → n ≡ true → (a ≡ false) × (b ≡ false)
      both n a b h k = ground arith

      neither :
          (n a b : Bool) → (n ≡ true → a ≡ false) → (n ≡ true → b ≡ false) → (n && (a || b)) ≡ false
      neither true a b h k = rw (h refl, k refl) refl
      neither false a b h k = refl

  pub AtLeast-Tells :
      (o : Option Value) (n : ℕ)
      → IfPresent (IsLimit j) o
      → Tells (IfPresent (AtLeast j n) o) (size_exceeds j ltb o n)
  AtLeast-Tells none n l = record {
    answer = false;
    answers = refl;
    sound = λ h. tt;
    complete = λ h. refl;
  }
  AtLeast-Tells (some m) n (k, e) = record {
    answer = ltb n k;
    answers = rw (e, size_exceeds) refl;
    sound = λ h. (k, e, ground arith);
    complete = λ h. same h.0 k h.2 (returned_eq h.0 k (sym h.1 ∙ e));
  }
    where
      returned_eq : (a b : ℕ) → ◌≡◌ {A = Outcome ℕ} (returned a) (returned b) → a ≡ b
      returned_eq a b h = cc

      same : (a b : ℕ) → a ≤ n → a ≡ b → ltb n b ≡ false
      same a b h g = ground arith

  pub AtMost-Tells :
      (o : Option Value) (n : ℕ)
      → IfPresent (IsLimit j) o
      → Tells (IfPresent (AtMost j n) o) (size_exceeds j (λ a b. ltb b a) o n)
  AtMost-Tells none n l = record {
    answer = false;
    answers = refl;
    sound = λ h. tt;
    complete = λ h. refl;
  }
  AtMost-Tells (some m) n (k, e) = record {
    answer = ltb k n;
    answers = rw (e, size_exceeds) refl;
    sound = λ h. (k, e, ground arith);
    complete = λ h. same h.0 k h.2 (returned_eq h.0 k (sym h.1 ∙ e));
  }
    where
      returned_eq : (a b : ℕ) → ◌≡◌ {A = Outcome ℕ} (returned a) (returned b) → a ≡ b
      returned_eq a b h = cc

      same : (a b : ℕ) → n ≤ a → a ≡ b → ltb b n ≡ false
      same a b h g = ground arith
