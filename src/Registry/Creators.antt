-- ===== src/Registry/Creators.antt =====
-- Commands/CommandRegistry.cpp and Instruments/InstrumentRegistry.cpp of source/ARTestEngine.Core,
-- which are one registry over two types of creators. A hash map is an association list; an empty
-- `std::function` is `none`. The address of an owner token is a number.
use artest_cli.Base.{
  ℕ, ◌||◌, Bool, true, false, Option, none, some, List, [], ◌∷◌, ◌++◌, String, str_eq, is_empty,
  if◌then◌else◌,
}
use artest_cli.Diagnostics.{OperationResult, success, failure}

abbrev pub Table : Type 0 → Type 0
Table A = List (String × A)

module _ {A : Type 0} where
  abbrev pub lookup : String → Table A → Option A
  lookup id [] = none
  lookup id ((k, a) ∷ t) = if str_eq k id then some a else lookup id t

  abbrev pub holds : String → Table A → Bool
  holds id [] = false
  holds id ((k, a) ∷ t) = str_eq k id || holds id t

  -- `emplace`, which does nothing if the key is there.
  abbrev pub emplace : String → A → Table A → Table A
  emplace id a t = if holds id t then t else t ++ (id, a) ∷ []

  -- `extract` of one key.
  abbrev pub extract : String → Table A → Table A
  extract id [] = []
  extract id ((k, a) ∷ t) = if str_eq k id then extract id t else (k, a) ∷ extract id t

pub record Registry (C : Type 0) : Type 0 where
  pub creators : Table C
  pub owners : Table ℕ

abbrev pub is_null : {C : Type 0} → Option C → Bool
is_null none = true
is_null (some c) = false

-- `Register`, with the two failures that it reports.
unfoldable pub register :
    {C : Type 0}
    → OperationResult
    → (String → OperationResult)
    → String
    → Option C
    → Registry C
    → OperationResult × Registry C
register invalid duplicate id none r = (invalid, r)
register invalid duplicate id (some c) r =
    if is_empty id
    then (invalid, r)
    else if holds id r.creators
    then (duplicate id, r)
    else (success, record r { creators = emplace id c r.creators })

abbrev pub register_command :
    {C : Type 0} → String → Option C → Registry C → OperationResult × Registry C
register_command =
    register (failure "COMMAND_REGISTRATION_INVALID" "Command name and creator are required." "")
      (λ id.
        failure "COMMAND_REGISTRATION_DUPLICATE" "A command with this name is already registered."
          id)

abbrev pub register_instrument :
    {C : Type 0} → String → Option C → Registry C → OperationResult × Registry C
register_instrument =
    register
      (failure "INSTRUMENT_REGISTRATION_INVALID" "Instrument type and creator are required." "")
      (λ id.
        failure "INSTRUMENT_REGISTRATION_DUPLICATE"
          "An instrument with this type is already registered." id)

-- `Contains`.
abbrev pub contains : {C : Type 0} → String → Registry C → Bool
contains id r = holds id r.creators

-- The creator that `Create` copies under its lock and then calls.
abbrev pub creator : {C : Type 0} → String → Registry C → Option C
creator id r = lookup id r.creators
