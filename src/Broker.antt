-- ===== src/Broker.antt =====
-- Extensions/NativeServiceBroker.h of source/ARTestEngine: the leases on services that extensions
-- hold. A component is what its weak pointer points to; `alive` says whether `lock` still answers it.
pub mod Leases
use artest_cli.Base.{
  ℕ, ◌+◌, ◌%◌, Bool, true, false, not, ◌&&◌, Option, none, some, List, [], ◌∷◌, ◌++◌, String, ◌==◌,
  str_eq, if◌then◌else◌,
}
use artest_cli.Registry.Creators.{lookup}

-- The values of `ARTestStatus` that these operations answer where nothing throws.
pub data BrokerStatus : Type 0 where
  done invalid_request missing : BrokerStatus

pub record Endpoint (C : Type 0) : Type 0 where
  pub component : C
  pub contract : String

pub record Broker (C : Type 0) : Type 0 where
  pub services : List (String × Endpoint C)
  pub leases : List (ℕ × C)
  pub next_lease : ℕ

-- What extensions ask of the broker.
pub data Ask (C : Type 0) : Type 0 where
  resolves : (C → Bool) → Bool → String → String → Ask C
  releases : ℕ → Ask C

-- Tokens have 64 bits.
abbrev pub token_limit : ℕ
token_limit = 18446744073709551616

abbrev pub new_broker : {C : Type 0} → List (String × Endpoint C) → Broker C
new_broker services = record { services = services; leases = []; next_lease = 1 }

module _ {C : Type 0} where
  abbrev pub find_lease : ℕ → List (ℕ × C) → Option C
  find_lease token [] = none
  find_lease token ((t, c) ∷ rest) = if t == token then some c else find_lease token rest

  abbrev pub is_leased : ℕ → List (ℕ × C) → Bool
  is_leased token leases = elim (find_lease token leases) [ none ↦ false | some c ↦ true ]

  abbrev pub erase_lease : ℕ → List (ℕ × C) → List (ℕ × C)
  erase_lease token [] = []
  erase_lease token ((t, c) ∷ rest) =
      let others = erase_lease token rest in if t == token then others else (t, c) ∷ others

  -- `emplace`, which changes nothing if the token is taken.
  abbrev pub emplace_lease : ℕ → C → List (ℕ × C) → List (ℕ × C)
  emplace_lease token c leases = if is_leased token leases then leases else (token, c) ∷ leases

  abbrev pub lease_out : C → Broker C → BrokerStatus × Option ℕ × Broker C
  lease_out c s = (
    done,
    some s.next_lease,
    record s {
      leases = emplace_lease s.next_lease c s.leases;
      next_lease = (s.next_lease + 1) % token_limit;
    },
  )

  abbrev pub not_there : Broker C → BrokerStatus × Option ℕ × Broker C
  not_there s = (missing, none, s)

  abbrev pub resolve_endpoint :
      (C → Bool) → String → Option (Endpoint C) → Broker C → BrokerStatus × Option ℕ × Broker C
  resolve_endpoint alive contract none s = not_there s
  resolve_endpoint alive contract (some e) s =
      if alive e.component && str_eq e.contract contract
      then lease_out e.component s
      else not_there s

  -- `ResolveService`; `has_output` says whether the output pointer is given.
  unfoldable pub resolve :
      (C → Bool) → Bool → String → String → Broker C → BrokerStatus × Option ℕ × Broker C
  resolve alive has_output contract instance_id s =
      if has_output
      then resolve_endpoint alive contract (lookup instance_id s.services) s
      else (invalid_request, none, s)

  -- `InvokeService`, up to the call: the component that is called. The null handle is 0.
  unfoldable pub component_of : ℕ → Broker C → BrokerStatus × Option C
  component_of token s =
      if token == 0
      then (invalid_request, none)
      else elim (find_lease token s.leases) [ none ↦ (missing, none) | some c ↦ (done, some c) ]

  -- `ReleaseService`.
  unfoldable pub release : ℕ → Broker C → Broker C
  release token s = record s { leases = erase_lease token s.leases }

  unfoldable pub serve : Ask C → Broker C → Broker C
  serve (resolves alive has_output contract instance_id) s =
      (resolve alive has_output contract instance_id s).2
  serve (releases token) s = release token s

  unfoldable pub serve_all : List (Ask C) → Broker C → Broker C
  serve_all [] s = s
  serve_all (a ∷ asks) s = serve_all asks (serve a s)
