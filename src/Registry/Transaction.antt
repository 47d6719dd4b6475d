-- ===== src/Registry/Transaction.antt =====
-- Catalog/RegistryTransaction.h of source/ARTestEngine.Core: a batch of registrations is committed
-- as a whole under an owner token, and is revoked by that token.
use artest_cli.Base.{
  ℕ, ◌||◌, Option, none, some, List, [], ◌∷◌, String, ◌==◌, is_empty, if◌then◌else◌,
}
use artest_cli.Diagnostics.{ValueResult, error_at}
use artest_cli.Registry.Creators.{Table, Registry, holds, emplace, extract}

-- A batch: identifiers with creators that may be empty.
abbrev pub Batch : Type 0 → Type 0
Batch C = List (String × Option C)

-- Where a loop over a batch has come to: the next tables, or the identifier in conflict.
pub data Adding (C : Type 0) : Type 0 where
  added : Registry C → Adding C
  conflict : String → Adding C

module _ {C D : Type 0} (owner : ℕ) (other : Table D) where
  -- The loop over one batch; `other` is the next table of the other registry.
  unfoldable pub add_batch : Batch C → Registry C → Adding C
  add_batch [] r = added r
  add_batch ((id, none) ∷ batch) r = conflict id
  add_batch ((id, some c) ∷ batch) r =
      let rest =
        add_batch batch
          (record { creators = emplace id c r.creators; owners = emplace id owner r.owners }) in
      if is_empty id || holds id other || holds id r.creators then conflict id else rest

abbrev pub conflict_result : String → ValueResult ℕ
conflict_result id = record {
  value = none;
  diagnostics =
      error_at "EXTENSION_COMPONENT_DUPLICATE"
        "The registration batch conflicts with an existing component." id
      ∷ [];
}

module _ {C D : Type 0} where
  -- `Commit`; `owner` is the token that it allocates.
  unfoldable pub commit :
      ℕ → Batch C → Batch D → Registry C → Registry D → ValueResult ℕ × Registry C × Registry D
  commit owner commands instruments r s = elim (add_batch owner s.creators commands r) [
    | conflict id ↦ (conflict_result id, r, s)
    | added r' ↦ elim (add_batch owner r'.creators instruments s) [
      | conflict id ↦ (conflict_result id, r, s)
      | added s' ↦ (record { value = some owner; diagnostics = [] }, r', s')
    ]
  ]

module _ {C : Type 0} (owner : ℕ) where
  -- The loop of `Revoke` over the owners of one registry.
  unfoldable pub revoke_loop : Table ℕ → Table C → Registry C
  revoke_loop [] creators = record { creators = creators; owners = [] }
  revoke_loop ((id, o) ∷ owners) creators =
      let rest = revoke_loop owners (if o == owner then extract id creators else creators) in
      if o == owner then rest else record rest { owners = (id, o) ∷ rest.owners }

  unfoldable pub revoke_one : Registry C → Registry C
  unfolding revoke_loop
  revoke_one r = revoke_loop r.owners r.creators

-- `Revoke`; a null token changes nothing.
unfoldable pub revoke :
    {C D : Type 0} → Option ℕ → Registry C → Registry D → Registry C × Registry D
revoke none r s = (r, s)
revoke (some owner) r s = (revoke_one owner r, revoke_one owner s)
