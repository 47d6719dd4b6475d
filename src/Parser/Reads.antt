-- ===== src/Parser/Reads.antt =====
-- What it means that a part of the parser reads a value: it accepts what stands in a relation to the
-- value, nothing else does, and a rejection reports an error.
use artest_cli.Base.{◌≡◌, refl, Bool, true, false, Option, none, some, if◌then◌else◌}
use artest_cli.Compiler.Steps.{Checked, accepted, rejected}
use artest_cli.Parser.Members.{◌>>=◌}
use artest_cli.Diagnostics.{Outcome, returned, raised, contains_errors}

module _ {A : Type 0} where
  abbrev pub Reads : (A → Type 0) → Checked A → Type 0
  Reads R (accepted a) = R a × ((b : A) → R b → b ≡ a)
  Reads R (rejected ds) = (contains_errors ds ≡ true) × ((b : A) → R b → ⊥)

  -- The same for a conversion that may throw.
  abbrev pub Yields : (A → Type 0) → Outcome A → Type 0
  Yields R (returned a) = R a × ((b : A) → R b → b ≡ a)
  Yields R (raised what) = (b : A) → R b → ⊥

  -- A part of the parser that depends on a member, a test or another part.
  pub option-Reads :
      {B : Type 0} (R : A → Type 0) (o : Option B) (x : Checked A) (y : B → Checked A)
      → (o ≡ none → Reads R x)
      → ((b : B) → o ≡ some b → Reads R (y b))
      → Reads R (elim o [ none ↦ x | some b ↦ y b ])
  option-Reads R none x y f g = f refl
  option-Reads R (some b) x y f g = g b refl

  pub test-Reads :
      (R : A → Type 0) (b : Bool) (x y : Checked A)
      → (b ≡ true → Reads R x)
      → (b ≡ false → Reads R y)
      → Reads R (if b then x else y)
  test-Reads R true x y f g = f refl
  test-Reads R false x y f g = g refl

  pub option-Yields :
      {B : Type 0} (R : A → Type 0) (o : Option B) (x : Outcome A) (y : B → Outcome A)
      → (o ≡ none → Yields R x)
      → ((b : B) → o ≡ some b → Yields R (y b))
      → Yields R (elim o [ none ↦ x | some b ↦ y b ])
  option-Yields R none x y f g = f refl
  option-Yields R (some b) x y f g = g b refl

  pub test-Yields :
      (R : A → Type 0) (b : Bool) (x y : Outcome A)
      → (b ≡ true → Yields R x)
      → (b ≡ false → Yields R y)
      → Yields R (if b then x else y)
  test-Yields R true x y f g = f refl
  test-Yields R false x y f g = g refl

pub checked-Reads :
    {A B : Type 0} (Q : B → Type 0) (R : A → Type 0) (c : Checked B) (y : B → Checked A)
    → Reads Q c
    → ((b : B) → Q b → ((b' : B) → Q b' → b' ≡ b) → Reads R (y b))
    → ((a : A) → R a → (b : B) × Q b)
    → Reads R (elim c [ rejected ds ↦ rejected ds | accepted b ↦ y b ])
checked-Reads Q R (rejected ds) y (e, u) g h = (e, λ a r. let (b, q) = h a r in u b q)
checked-Reads Q R (accepted b) y (q, u) g h = g b q u

pub bind-Yields :
    {A B : Type 0} (Q : A → Type 0) (R : B → Type 0) (m : Outcome A) (f : A → Outcome B)
    → Yields Q m
    → ((a : A) → Q a → ((a' : A) → Q a' → a' ≡ a) → Yields R (f a))
    → ((b : B) → R b → (a : A) × Q a)
    → Yields R (m >>= f)
bind-Yields Q R (raised what) f u g h = λ b r. let (a, q) = h b r in u a q
bind-Yields Q R (returned a) f (q, u) g h = g a q u
