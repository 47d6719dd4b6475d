-- ===== src/Tests/Registry.antt =====
-- Batches of registrations and catalogs of a few components.
use artest_cli.Base.{◌≡◌, ◌⊎◌, refl, ℕ, true, false, none, some, List, [], ◌∷◌, String, All}
use artest_cli.Diagnostics.{succeeded}
use artest_cli.Registry.Creators.{Registry}
use artest_cli.Registry.Transaction.{Batch, add_batch, commit, revoke}
use artest_cli.Registry.Withdrawal.{revoke-commit}
use artest_cli.Catalog.Components.{ComponentDescriptor, Components, command, names, add}
use artest_cli.Catalog.Resolution.{Extends, Resolves, find-add}

-- One command of the engine and one of an extension with the token 1.
abbrev some_commands : Registry ℕ
some_commands = record { creators = ("wait", 10) ∷ ("blink", 11) ∷ []; owners = ("blink", 1) ∷ [] }

abbrev some_instruments : Registry ℕ
some_instruments = record { creators = ("supply", 20) ∷ []; owners = [] }

abbrev two_commands : Batch ℕ
two_commands = ("measure", some 12) ∷ ("sweep", some 13) ∷ []

abbrev one_instrument : Batch ℕ
one_instrument = ("meter", some 21) ∷ []

commits : (commit 2 two_commands one_instrument some_commands some_instruments).0.value ≡ some 2
unfolding commit add_batch
commits = refl

-- An instrument with the name of a command is a conflict.
conflicts :
    (commit 2 two_commands (("sweep", some 21) ∷ []) some_commands some_instruments).0.value ≡ none
unfolding commit add_batch
conflicts = refl

revoke-commit_example :
    let (result, r', s') = commit 2 two_commands one_instrument some_commands some_instruments in
    ((result.value ≡ none) × (r' ≡ some_commands) × (s' ≡ some_instruments))
    ⊎ ((result.value ≡ some 2) × (revoke result.value r' s' ≡ (some_commands, some_instruments)))
revoke-commit_example =
    revoke-commit 2 two_commands one_instrument some_commands some_instruments
      (record { owned = (refl, tt); fresh = (refl, tt) }) (record { owned = tt; fresh = tt })

abbrev described : String → List String → ComponentDescriptor ℕ
described name aliases = record {
  kind = command;
  type_id = name;
  contract_id = "command.v1";
  version = "1.0.0";
  display_name = name;
  aliases = aliases;
  capabilities = [];
  required_contracts = [];
  schemas = [];
  flags = [];
  validation_code = "INVALID";
  unavailable_code = "UNAVAILABLE";
}

abbrev two_components : List (ComponentDescriptor ℕ)
two_components = described "core.wait" ("wait" ∷ []) ∷ described "core.if" [] ∷ []

abbrev one_component : Components ℕ
one_component = ("old", described "old" []) ∷ []

find-add_example :
    let (r, t') = add two_components one_component in
    ((succeeded r ≡ false) × (t' ≡ one_component))
    ⊎ ((succeeded r ≡ true)
        × Extends one_component t'
        × All (λ d. Resolves t' d (names d)) two_components)
find-add_example = find-add two_components one_component
