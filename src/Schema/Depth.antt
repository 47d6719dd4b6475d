-- ===== src/Schema/Depth.antt =====
-- The limit on the depth: what a usable schema describes does not depend on it.
use artest_cli.Base.{
  ℕ, true, zero, suc, ◌≡◌, refl, ◌∙◌, subst, ◌≤◌, ◌↔◌, Option, none, some, List, [], ◌∷◌, All,
  String, arith,
}
use artest_cli.Json.{
  Json, View, null, opaque, boolean, signed, unsigned, float, text, array, object, members,
}
use artest_cli.Schema.Check.{property}
use artest_cli.Schema.Conforms.{Conforms, MemberConforms, PartsConform}
use artest_cli.Schema.Decides.{lookup-All}
use artest_cli.Schema.Usable.{IfPresent, IsUsable}
use artest_cli.Schema.Validate.{child, allows_others}
use artest_cli.Diagnostics.{returned}

module _ (j : Json) where
  open j use {Value, view}

  -- The declared members of a usable schema are usable.
  child-IsUsable :
      (l : ℕ) (s c : Value) (key : String)
      → IfPresent
          (λ ps. All (λ p. IsUsable j l p.1) (members (view ps)))
          (property j "properties" s)
      → child j s key ≡ some c
      → IsUsable j l c
  child-IsUsable l s c key u f = at (property j "properties" s) refl
    where
      at : (o : Option Value) → property j "properties" s ≡ o → IsUsable j l c
      at none e = let missing : child j s key ≡ none = rw (e, child) refl in cc (missing, f)
      at (some ps) e =
          lookup-All (IsUsable j l) key (members (view ps)) c (declares e ∙ f)
            (subst (IfPresent (λ qs. All (λ p. IsUsable j l p.1) (members (view qs)))) e u)
        where
          declares : property j "properties" s ≡ some ps → property j key ps ≡ child j s key
          declares e = rw (e, child) refl

  module _ (l m : ℕ)
      (same : (s v : Value) → IsUsable j l s → Conforms j l s v ↔ Conforms j m s v) where
    member-same :
        (s : Value) (p : String × Value)
        → IfPresent
            (λ ps. All (λ q. IsUsable j l q.1) (members (view ps)))
            (property j "properties" s)
        → MemberConforms j (Conforms j l) s p ↔ MemberConforms j (Conforms j m) s p
    member-same s (key, item) u = at (child j s key) (λ c f. child-IsUsable l s c key u f)
      where
        at :
            (o : Option Value)
            → ((c : Value) → o ≡ some c → IsUsable j l c)
            → (elim o as (λ x. Type 0) [
              | some c ↦ Conforms j l c item
              | none ↦ allows_others j s ≡ returned true
            ])
              ↔ (elim o as (λ x. Type 0) [
                | some c ↦ Conforms j m c item
                | none ↦ allows_others j s ≡ returned true
              ])
        at none k = ((λ x. x), (λ x. x))
        at (some c) k = same c item (k c refl)

    All-same :
        {A : Type 0} (P Q : A → Type 0) (xs : List A) → ((x : A) → P x ↔ Q x) → All P xs ↔ All Q xs
    All-same P Q [] f = ((λ x. x), (λ x. x))
    All-same P Q (x ∷ xs) f =
        let rest = All-same P Q xs f in
        ((λ a. ((f x).0 a.0, rest.0 a.1)), (λ a. ((f x).1 a.0, rest.1 a.1)))

    items-same :
        (o : Option Value) (xs : List Value)
        → IfPresent (IsUsable j l) o
        → IfPresent (λ i. All (Conforms j l i) xs) o ↔ IfPresent (λ i. All (Conforms j m i) xs) o
    items-same none xs u = ((λ x. x), (λ x. x))
    items-same (some i) xs u = All-same _ _ xs (λ x. same i x u)

    parts-same :
        (s : Value) (x : View Value j.Float)
        → IfPresent
            (λ ps. All (λ q. IsUsable j l q.1) (members (view ps)))
            (property j "properties" s)
        → IfPresent (IsUsable j l) (property j "items" s)
        → PartsConform j (Conforms j l) s x ↔ PartsConform j (Conforms j m) s x
    parts-same s (object ms) u i =
        let all = All-same _ _ ms (λ p. member-same s p u) in
        ((λ a. (a.0, all.0 a.1)), (λ a. (a.0, all.1 a.1)))
    parts-same s (array xs) u i = items-same (property j "items" s) xs i
    parts-same s null u i = ((λ x. x), (λ x. x))
    parts-same s opaque u i = ((λ x. x), (λ x. x))
    parts-same s (boolean b) u i = ((λ x. x), (λ x. x))
    parts-same s (signed z) u i = ((λ x. x), (λ x. x))
    parts-same s (unsigned n) u i = ((λ x. x), (λ x. x))
    parts-same s (float f) u i = ((λ x. x), (λ x. x))
    parts-same s (text t) u i = ((λ x. x), (λ x. x))

  -- A usable schema describes the same values down to any more levels.
  pub Conforms-same :
      (l m : ℕ) (s v : Value) → l ≤ m → IsUsable j l s → Conforms j l s v ↔ Conforms j m s v
  unfolding IsUsable Conforms
  Conforms-same zero m s v le u = elim u [ ]
  Conforms-same (suc l) zero s v le u = absurd (omega (arith, le))
  Conforms-same (suc l) (suc m) s v le u =
      let parts =
        parts-same l m (λ c x w. Conforms-same l m c x (omega (arith, le)) w) s (view v) u.4 u.5 in
      ((λ (a, b, c, d, p). (a, b, c, d, parts.0 p)), (λ (a, b, c, d, p). (a, b, c, d, parts.1 p)))
