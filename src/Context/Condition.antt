-- ===== src/Context/Condition.antt =====
-- `EvaluateCondition` of Execution/ExecutionContext.cpp in source/ARTestEngine.Core. The regular
-- expression and `std::stoi` are parameters.
use artest_cli.Base.{
  ◌≡◌, ◌≢◌, refl, ap, ℕ, ◌+◌, ◌<◌, Bool, true, false, not, Option, none, some, String, ◌==◌, str_eq,
  eq_iff, if◌then◌else◌, arith,
}
use artest_cli.Base.Int.{ℤ, pos, negsuc, pos_part, neg_part, ltb_ℤ, leb_ℤ, ◌≤ℤ◌}
use artest_cli.Context.{ExecutionContext, set_variable, get_variable, get_variable-set_variable}
use artest_cli.Diagnostics.{Outcome, returned, raised}

abbrev pub eqb_ℤ : ℤ → ℤ → Bool
eqb_ℤ (pos m) (pos n) = m == n
eqb_ℤ (negsuc m) (negsuc n) = m == n
eqb_ℤ _ _ = false

-- The chain of tests of the operator's text.
abbrev pub compare_by : String → ℤ → ℤ → Bool
compare_by operation l r =
    if str_eq operation "=="
    then eqb_ℤ l r
    else if str_eq operation "!="
    then not (eqb_ℤ l r)
    else if str_eq operation "<"
    then ltb_ℤ l r
    else if str_eq operation ">"
    then ltb_ℤ r l
    else if str_eq operation "<="
    then leb_ℤ l r
    else if str_eq operation ">="
    then leb_ℤ r l
    else false

abbrev pub compared : String → ℤ → Outcome ℤ → Outcome Bool
compared operation r (returned l) = returned (compare_by operation l r)
compared operation r (raised x) = raised x

-- What remains once the number is read: the variable is looked up after it.
abbrev pub against : String → String → Outcome ℤ → ExecutionContext → Outcome Bool
against name operation (raised x) c = raised x
against name operation (returned r) c = compared operation r (get_variable name c)

-- The groups of the match, if the expression is one.
abbrev pub evaluate_match :
    (String → Outcome ℤ) → Option (String × String × String) → ExecutionContext → Outcome Bool
evaluate_match stoi none c = returned false
evaluate_match stoi (some (name, operation, number)) c = against name operation (stoi number) c

unfoldable pub evaluate_condition :
    (String → Option (String × String × String))
    → (String → Outcome ℤ)
    → String
    → ExecutionContext
    → Outcome Bool
evaluate_condition matches stoi expression c = evaluate_match stoi (matches expression) c

-- The comparisons of the language, and how they are written.
pub data Comparison : Type 0 where
  equal unequal less greater at_most at_least : Comparison

abbrev pub written_as : Comparison → String
written_as equal = "=="
written_as unequal = "!="
written_as less = "<"
written_as greater = ">"
written_as at_most = "<="
written_as at_least = ">="

infix 50 ◌<ℤ◌
abbrev pub ◌<ℤ◌ : ℤ → ℤ → Type 0
a <ℤ b = pos_part a + neg_part b < pos_part b + neg_part a

abbrev pub Relates : Comparison → ℤ → ℤ → Type 0
Relates equal l r = l ≡ r
Relates unequal l r = l ≢ r
Relates less l r = l <ℤ r
Relates greater l r = r <ℤ l
Relates at_most l r = l ≤ℤ r
Relates at_least l r = r ≤ℤ l

abbrev pub Decides : Type 0 → Bool → Type 0
Decides P true = P
Decides P false = ¬ P

-- The answer is a Boolean, and it decides the statement.
abbrev pub AnswersTo : Type 0 → Outcome Bool → Type 0
AnswersTo P (returned b) = Decides P b
AnswersTo P (raised x) = ⊥

Decides-map : {P Q : Type 0} (b : Bool) → (P → Q) → (Q → P) → Decides P b → Decides Q b
Decides-map true f g h = f h
Decides-map false f g h = λ q. h (g q)

Decides-not : (P : Type 0) (b : Bool) → Decides P b → Decides (¬ P) (not b)
Decides-not P true h = λ n. n h
Decides-not P false h = h

==-Decides : (m n : ℕ) → Decides (m ≡ n) (m == n)
==-Decides m n = ground arith

eqb_ℤ-Decides : (l r : ℤ) → Decides (l ≡ r) (eqb_ℤ l r)
eqb_ℤ-Decides (pos m) (pos n) = Decides-map (m == n) (ap pos) (ap pos_part) (==-Decides m n)
eqb_ℤ-Decides (negsuc m) (negsuc n) =
    Decides-map (m == n) (ap negsuc) (λ e. omega (arith, ap neg_part e)) (==-Decides m n)
eqb_ℤ-Decides (pos m) (negsuc n) = λ e. cc
eqb_ℤ-Decides (negsuc m) (pos n) = λ e. cc

compare_by-Decides :
    (o : Comparison) (l r : ℤ) → Decides (Relates o l r) (compare_by (written_as o) l r)
compare_by-Decides equal l r = eqb_ℤ-Decides l r
compare_by-Decides unequal l r = Decides-not (l ≡ r) (eqb_ℤ l r) (eqb_ℤ-Decides l r)
compare_by-Decides less l r = ground arith
compare_by-Decides greater l r = ground arith
compare_by-Decides at_most l r = ground arith
compare_by-Decides at_least l r = ground arith

get_variable-same :
    (name : String) (u : ℤ) (c : ExecutionContext)
    → get_variable name (set_variable name u c) ≡ returned u
get_variable-same name u c =
    rw (get_variable-set_variable name name u c, (eq_iff name name).1 refl) refl

-- A condition that is read as a comparison of a variable with a number answers whether the value
-- that the variable was set to stands in that relation to the number.
pub evaluate_condition-AnswersTo :
    (matches : String → Option (String × String × String)) (stoi : String → Outcome ℤ)
    (o : Comparison) (expression name number : String) (u v : ℤ) (c : ExecutionContext)
    → matches expression ≡ some (name, written_as o, number)
    → stoi number ≡ returned v
    → AnswersTo (Relates o u v) (evaluate_condition matches stoi expression (set_variable name u c))
unfolding evaluate_condition
evaluate_condition-AnswersTo matches stoi o expression name number u v c m n =
    rw (m, n, get_variable-same name u c) (compare_by-Decides o u v)
