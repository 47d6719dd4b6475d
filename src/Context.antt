-- ===== src/Context.antt =====
-- Execution/ExecutionContext.h and ExecutionContext.cpp of source/ARTestEngine.Core: the variables
-- that commands share. The hash map is an association list with one entry for each name; `int` is
-- an integer, whose `++` is not defined past the greatest `int`.
pub mod Condition
use artest_cli.Base.{
  ℕ, zero, suc, ◌≡◌, ◌≤◌, subst, sym, inl, inr, Option-cases, ltb, refl, Option, none, some, List,
  [], ◌∷◌, String, str_eq, eq_iff, arith, if◌then◌else◌, ◌⧺◌,
}
use artest_cli.Base.Int.{ℤ, pos, negsuc}
use artest_cli.Diagnostics.{Outcome, returned, raised}

pub record ExecutionContext : Type 0 where
  pub variables : List (String × ℤ)

abbrev pub new_context : ExecutionContext
new_context = record { variables = [] }

find : String → List (String × ℤ) → Option ℤ
find name [] = none
find name ((n, v) ∷ rest) = if str_eq n name then some v else find name rest

assign : String → ℤ → List (String × ℤ) → List (String × ℤ)
assign name value [] = (name, value) ∷ []
assign name value ((n, v) ∷ rest) =
    if str_eq n name then (n, value) ∷ rest else (n, v) ∷ assign name value rest

unfoldable pub set_variable : String → ℤ → ExecutionContext → ExecutionContext
unfolding assign
set_variable name value c = record { variables = assign name value c.variables }

unfoldable pub get_variable : String → ExecutionContext → Outcome ℤ
unfolding find
get_variable name c = elim (find name c.variables) [
  | none ↦ raised (some ("Variable not found: " ⧺ name))
  | some v ↦ returned v
]

-- The greatest `int` of 32 bits.
abbrev pub int_max : ℕ
int_max = 2147483647

-- `++` on an `int`; none where it overflows, which the language does not define.
abbrev pub plus_one : ℤ → Option ℤ
plus_one (pos n) = if ltb n int_max then some (pos (suc n)) else none
plus_one (negsuc zero) = some (pos zero)
plus_one (negsuc (suc n)) = some (negsuc n)

-- A missing name is entered_as as 0 first.
abbrev next_value : Option ℤ → Option ℤ
next_value none = some (pos 1)
next_value (some v) = plus_one v

-- `++m_variables[name]`; none where it overflows.
unfoldable pub increment_variable : String → ExecutionContext → Option ExecutionContext
unfolding find assign
increment_variable name c = elim (next_value (find name c.variables)) [
  | none ↦ none
  | some v ↦ some (record { variables = assign name v c.variables })
]

find-assign :
    (k j : String) (v : ℤ) (m : List (String × ℤ))
    → find j (assign k v m) ≡ (if str_eq k j then some v else find j m)
unfolding find assign
find-assign k j v [] = refl
find-assign k j v ((i, w) ∷ m) =
    ground (arith, eq_iff k j, eq_iff i k, eq_iff i j, find-assign k j v m)

-- Setting a variable is read back, and changes no other variable.
pub get_variable-set_variable :
    (k j : String) (v : ℤ) (c : ExecutionContext)
    → get_variable j (set_variable k v c) ≡ (if str_eq k j then returned v else get_variable j c)
unfolding get_variable set_variable
get_variable-set_variable k j v c = ground (arith, find-assign k j v c.variables)

-- The value after an increment: 1 for a missing name.
abbrev pub IsIncrement : Outcome ℤ → ℤ → Type 0
IsIncrement (returned v) w = plus_one v ≡ some w
IsIncrement (raised what) w = w ≡ pos 1

-- The value that no `int` follows.
abbrev pub IsGreatest : Outcome ℤ → Type 0
IsGreatest (returned (pos n)) = int_max ≤ n
IsGreatest _ = ⊥

-- No context is left if the value was the greatest. Otherwise the variable is incremented and every
-- other one is as before.
abbrev pub IsIncremented : String → ExecutionContext → Option ExecutionContext → Type 0
IsIncremented k c none = IsGreatest (get_variable k c)
IsIncremented k c (some d) =
    (w : ℤ) × IsIncrement (get_variable k c) w
    × ((j : String) → get_variable j d ≡ (if str_eq k j then returned w else get_variable j c))

-- Incrementing is undefined only if the variable is there with a value from 2147483647 on, the
-- greatest `int`. Otherwise it adds one to the variable, or enters 1 if it was missing, and changes no
-- other variable.
pub get_variable-increment_variable :
    (k : String) (c : ExecutionContext) → IsIncremented k c (increment_variable k c)
unfolding get_variable increment_variable
get_variable-increment_variable k c = at (find k c.variables) refl
  where
    entered_as :
        (w : ℤ) (j : String)
        → get_variable j (record { variables = assign k w c.variables })
          ≡ (if str_eq k j then returned w else get_variable j c)
    entered_as w j = ground (arith, find-assign k j w c.variables)

    greatest : (v : ℤ) → plus_one v ≡ none → IsGreatest (returned v)
    greatest (pos n) o = ground arith
    greatest (negsuc zero) o = cc
    greatest (negsuc (suc n)) o = cc

    got :
        (o : Option ℤ)
        → find k c.variables ≡ o
        → get_variable k c ≡ (elim o as (λ x. Outcome ℤ) [
          | none ↦ raised (some ("Variable not found: " ⧺ k))
          | some v ↦ returned v
        ])
    got o e = rw (get_variable, e) refl

    at :
        (o : Option ℤ)
        → find k c.variables ≡ o
        → IsIncremented k c (elim (next_value o) as (λ x. Option ExecutionContext) [
          | none ↦ none
          | some v ↦ some (record { variables = assign k v c.variables })
        ])
    at none e =
        (pos 1, subst (λ x. IsIncrement x (pos 1)) (sym (got none e)) refl, entered_as (pos 1))
    at (some v) e = elim (Option-cases (plus_one v)) [
      | inl o ↦ rw o (subst IsGreatest (sym (got (some v) e)) (greatest v o))
      | inr (w, q) ↦ rw q (w, subst (λ x. IsIncrement x w) (sym (got (some v) e)) q, entered_as w)
    ]
