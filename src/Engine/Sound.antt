-- ===== src/Engine/Sound.antt =====
-- The invariant of an engine and its handles, and that every call keeps it.
use artest_cli.Base.{
  ◌≡◌, refl, ◌⊎◌, inr, true, false, ℕ, zero, suc, ◌≤◌, Option, none, some, List, [], ◌∷◌, All,
  String, arith,
}
use artest_cli.Catalog.Components.{ComponentDescriptor, add, add_all}
use artest_cli.Compiler.Schemas.{HasParameters}
use artest_cli.Diagnostics.{Outcome, succeeded}
use artest_cli.Engine.Calls.{Handles, entry_at, erase_at, new_handles}
use artest_cli.Engine.Context.{Engine, register_intrinsic}
use artest_cli.Engine.Plans.{CompiledPlan}
use artest_cli.Engine.Scan.{components, fingerprint}
use artest_cli.Engine.Sessions.{SessionHandle}
use artest_cli.Json.{Json}

module _ {A : Type 0} (P : A → Type 0) where
  pub All-erase_at : (k : ℕ) (xs : List A) → All P xs → All P (erase_at k xs)
  unfolding erase_at
  All-erase_at k [] a = tt
  All-erase_at zero (x ∷ xs) a = a.1
  All-erase_at (suc k) (x ∷ xs) a = (a.0, All-erase_at k xs a.1)

  pub All-entry_at : (k : ℕ) (xs : List A) (x : A) → All P xs → entry_at k xs ≡ some x → P x
  unfolding entry_at
  All-entry_at k [] x a e = cc
  All-entry_at zero (y ∷ ys) x a e = ground (arith, a, e)
  All-entry_at (suc k) (y ∷ ys) x a e = All-entry_at k ys x a.1 e

-- At most one entry.
abbrev pub AtMostOne : {A : Type 0} → List A → Type 0
AtMostOne [] = Unit
AtMostOne (x ∷ []) = Unit
AtMostOne (x ∷ y ∷ ys) = true ≡ false

-- The only entry is erased.
pub erase_at-entry_at :
    {A : Type 0} (k : ℕ) (xs : List A) (x : A)
    → AtMostOne xs
    → entry_at k xs ≡ some x
    → erase_at k xs ≡ []
unfolding entry_at erase_at
erase_at-entry_at k [] x o e = refl
erase_at-entry_at zero (y ∷ []) x o e = refl
erase_at-entry_at (suc k) (y ∷ []) x o e = cc
erase_at-entry_at k (y ∷ z ∷ zs) x o e = cc

module _ (j : Json) (parse : String → Outcome j.Value) (dump : j.Value → String) (size : String → ℕ)
    (intrinsic : List (ComponentDescriptor j.Value)) where
  open j use {Value}

  -- A plan of the engine is of no later revision, and of the same only with the catalog in force.
  abbrev pub FitsEngine : Engine Value → CompiledPlan Value → Type 0
  FitsEngine e p =
      p.owner ≡ e.address
      → (p.revision ≤ e.revision)
        × (p.revision ≡ e.revision → All (HasParameters j e.catalog) p.steps)

  -- What a refresh of the prepared packages is given.
  abbrev pub pin : Engine Value → String × String
  pin e = (e.prepared.root, fingerprint dump size e.prepared)

  -- The catalog is the intrinsic components with those of the prepared packages.
  abbrev pub IsPrepared : Engine Value → Type 0
  IsPrepared e =
      (succeeded (add (components e.prepared) (register_intrinsic intrinsic []).1).0 ≡ true)
      × ((add (components e.prepared) (register_intrinsic intrinsic []).1).1 ≡ e.catalog)

  module _ {R : Type 0} where
    -- A session holds the lease that the engine knows, and its steps are those of the catalog.
    abbrev pub HoldsLease : Engine Value → SessionHandle Value R → Type 0
    HoldsLease e s = (e.run_lease ≡ some s.lease) × All (HasParameters j e.catalog) s.steps

    pub record IsSound (h : Handles Value R) : Type 0 where
      pub fitting : All (FitsEngine h.engine) h.plans
      pub holding : All (HoldsLease h.engine) h.sessions
      pub single : AtMostOne h.sessions
      pub described : IsPrepared h.engine
      pub refreshing_pinned : All (λ a. a ≡ pin h.engine) h.activating
      pub refreshing_loading : (h.engine.loading ≡ true) ⊎ (h.activating ≡ [])
      pub one_refresh : AtMostOne h.activating
      pub active_pinned : h.engine.active ≡ true → h.pinned ≡ some (pin h.engine)

    pub new_handles-IsSound :
        (address : ℕ) → IsSound (new_handles j parse dump size intrinsic address)
    unfolding add add_all components
    new_handles-IsSound address = record {
      fitting = tt;
      holding = tt;
      single = tt;
      described = (refl, refl);
      refreshing_pinned = tt;
      refreshing_loading = inr refl;
      one_refresh = tt;
      active_pinned = λ e. cc;
    }

    -- The revision counts the calls at most.
    abbrev pub Kept : ℕ → Handles Value R → Type 0
    Kept n h = (h.engine.revision ≤ n) × IsSound h

    -- A call is defined, and what it leaves is kept.
    abbrev pub Keeps : ℕ → Option (Handles Value R) → Type 0
    Keeps n none = true ≡ false
    Keeps n (some h) = Kept n h
