-- ===== src/Schema/Decides.antt =====
-- A validation that returns, with the statement that it decides.
use artest_cli.Base.{
  ◌≡◌, refl, subst, Bool, true, false, Option, none, some, List, [], ◌∷◌, All, String, str_eq, inl,
  inr, Bool-cases, if◌then◌else◌,
}
use artest_cli.Diagnostics.{OperationResult, Outcome, returned, succeeded, success}
use artest_cli.Registry.Creators.{lookup}
use artest_cli.Schema.Validate.{◌then◌, unless, either}

-- The outcome is a result, not an exception, and it is a success exactly if the statement holds.
pub record Decides (P : Type 0) (o : Outcome OperationResult) : Type 0 where
  pub result : OperationResult
  pub returns : o ≡ returned result
  pub sound : succeeded result ≡ true → P
  pub complete : P → succeeded result ≡ true

pub then-Decides :
    (P Q : Type 0) (a b : Outcome OperationResult)
    → Decides P a
    → Decides Q b
    → Decides (P × Q) (a then b)
unfolding ◌then◌
then-Decides P Q a b p q = elim (Bool-cases (succeeded p.result)) [
  | inl y ↦ record {
    result = q.result;
    returns = rw (p.returns, y) q.returns;
    sound = λ h. (p.sound y, q.sound h);
    complete = λ h. q.complete h.1;
  }
  | inr n ↦ record {
    result = p.result;
    returns = rw (p.returns, n) refl;
    sound = λ h. cc (n, h);
    complete = λ h. p.complete h.0;
  }
]

pub unless-Decides :
    (b : Bool) (r : OperationResult)
    → succeeded r ≡ false
    → Decides (b ≡ false) (unless (returned b) r)
unfolding unless
unless-Decides true r f = record {
  result = r;
  returns = refl;
  sound = λ h. cc (f, h);
  complete = λ h. cc (h);
}
unless-Decides false r f = record {
  result = success;
  returns = refl;
  sound = λ h. refl;
  complete = λ h. refl;
}

pub success-Decides : (P : Type 0) → P → Decides P (returned success)
success-Decides P p = record {
  result = success;
  returns = refl;
  sound = λ h. p;
  complete = λ h. refl;
}

pub map-Decides :
    (P Q : Type 0) (o : Outcome OperationResult) → (P → Q) → (Q → P) → Decides P o → Decides Q o
map-Decides P Q o f g d = record {
  result = d.result;
  returns = d.returns;
  sound = λ h. f (d.sound h);
  complete = λ q. d.complete (g q);
}

-- The same for a test that may throw: it does not, and answers false exactly if the statement holds.
pub record Tells (P : Type 0) (o : Outcome Bool) : Type 0 where
  pub answer : Bool
  pub answers : o ≡ returned answer
  pub sound : answer ≡ false → P
  pub complete : P → answer ≡ false

pub either-Tells :
    (P Q : Type 0) (a b : Outcome Bool) → Tells P a → Tells Q b → Tells (P × Q) (either a b)
either-Tells P Q a b p q = elim (Bool-cases p.answer) [
  | inl y ↦ record {
    answer = true;
    answers = rw (p.answers, y) refl;
    sound = λ h. cc (h);
    complete = λ h. cc (y, p.complete h.0);
  }
  | inr n ↦ record {
    answer = q.answer;
    answers = rw (p.answers, n) q.answers;
    sound = λ h. (p.sound n, q.sound h);
    complete = λ h. q.complete h.1;
  }
]

pub unless-Tells :
    (P : Type 0) (o : Outcome Bool) (r : OperationResult)
    → succeeded r ≡ false
    → Tells P o
    → Decides P (unless o r)
unless-Tells P o r f t =
    rw t.answers
      (map-Decides (t.answer ≡ false) P _ t.sound t.complete (unless-Decides t.answer r f))

-- A validation that depends on a value that is there.
pub some-Decides :
    {A : Type 0} (P : Type 0) (o : Option A) (x : Outcome OperationResult)
    (k : A → Outcome OperationResult) (a : A)
    → o ≡ some a
    → Decides P (k a)
    → Decides P (elim o [ none ↦ x | some b ↦ k b ])
some-Decides P none x k a e d = cc
some-Decides P (some b) x k a e d = subst (λ c. Decides P (k c)) (cc) d

pub lookup-All :
    {A : Type 0} (P : A → Type 0) (k : String) (t : List (String × A)) (x : A)
    → lookup k t ≡ some x
    → All (λ p. P p.1) t
    → P x
lookup-All P k [] x e a = cc
lookup-All P k ((i, y) ∷ t) x e a = elim (Bool-cases (str_eq i k)) [
  | inl h ↦ subst P (cc (rw h at e)) a.0
  | inr h ↦ lookup-All P k t x (rw h at e) a.1
]
