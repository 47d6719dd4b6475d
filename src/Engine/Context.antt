-- ===== src/Engine/Context.antt =====
-- Api/EngineContext.cpp and Api/EngineContext.h of source/ARTestEngine. `Activate` is its two critical
-- sections: between them, without the lock, the runtime refreshes with the root and the fingerprint
-- that the first one read.
use artest_cli.Base.{
  ◌||◌, not, Bool, true, false, ℕ, ◌+◌, ◌%◌, Option, none, some, List, [], ◌∷◌, ◌++◌, String,
  if◌then◌else◌,
}
use artest_cli.Catalog.Components.{ComponentDescriptor, Components, add}
use artest_cli.Diagnostics.{OperationResult, succeeded, success, failure}
use artest_cli.Engine.Scan.{CatalogScan, components, is_valid, collected, fingerprint}

-- A report of the catalog: the arguments of `ToJson`, or the runtime's own.
pub data Report (J : Type 0) : Type 0 where
  scanned : String → CatalogScan J → Report J
  from_runtime : J → Report J

-- `address` stands for the pointer that plans keep; `run_lease` is the weak pointer's target.
pub record Engine (J : Type 0) : Type 0 where
  pub address : ℕ
  pub catalog : Components J
  pub prepared : CatalogScan J
  pub last_catalog_report : Option (Report J)
  pub revision : ℕ
  pub active : Bool
  pub loading : Bool
  pub run_lease : Option ℕ

abbrev pub revision_limit : ℕ
revision_limit = 18446744073709551616

abbrev pub next_revision : ℕ → ℕ
next_revision r = (r + 1) % revision_limit

-- What the first critical section of `Activate` decides.
pub data Activation : Type 0 where
  not_needed : Activation
  busy : OperationResult → Activation
  refreshing : String → String → Activation

module _ {J : Type 0} (intrinsic : List (ComponentDescriptor J)) where
  -- `RegisterIntrinsicMetadata`.
  abbrev pub register_intrinsic : Components J → OperationResult × Components J
  register_intrinsic t = add intrinsic t

  abbrev pub no_scan : CatalogScan J
  no_scan = record { root = ""; packages = []; diagnostics = [] }

  -- The constructor and `Initialize` without the default catalog.
  abbrev pub new_engine : ℕ → Engine J
  new_engine address = record {
    address = address;
    catalog = (register_intrinsic []).1;
    prepared = no_scan;
    last_catalog_report = none;
    revision = 0;
    active = false;
    loading = false;
    run_lease = none;
  }

  abbrev pub report_as : String → CatalogScan J → Engine J → Engine J
  report_as status scan e = record e { last_catalog_report = some (scanned status scan) }

  abbrev pub with_diagnostics : OperationResult → CatalogScan J → CatalogScan J
  with_diagnostics r scan = record scan { diagnostics = scan.diagnostics ++ r.diagnostics }

  -- The end of `Prepare`, with the results of building the next catalog.
  abbrev pub exchange :
      CatalogScan J
      → OperationResult × Components J
      → (Components J → OperationResult × Components J)
      → Engine J
      → OperationResult × Engine J
  exchange scan (r, base) add_to e =
      let (s, next) = add_to base in
      if not (succeeded r)
      then (r, e)
      else if not (succeeded s)
      then (s, report_as "rejected" (with_diagnostics s scan) e)
      else (
        success,
        record e { catalog = next; prepared = scan; revision = next_revision e.revision },
      )

  -- `Prepare` with what `Discover` finds; `expired` tells whether no session holds the lease.
  unfoldable pub prepare : Bool → CatalogScan J → Engine J → OperationResult × Engine J
  prepare expired scan e =
      if e.active || e.loading || not expired
      then (
        failure "EXTENSION_CATALOG_LOCKED"
            "Catalog preparation requires an inactive Engine without session handles." "",
        e,
      )
      else if not (is_valid scan)
      then (record { diagnostics = collected scan }, report_as "rejected" scan e)
      else exchange scan (register_intrinsic []) (add (components scan))
          (report_as "validated" scan e)

abbrev pub has_packages : {J : Type 0} → CatalogScan J → Bool
has_packages s = elim s.packages [ [] ↦ false | p ∷ ps ↦ true ]

abbrev pub in_progress : OperationResult
in_progress = failure "EXTENSION_CATALOG_BUSY" "Activation is already in progress." ""

module _ {J : Type 0} (dump : J → String) (size : String → ℕ) where
  -- The first critical section of `Activate`.
  unfoldable pub begin_activation : Engine J → Activation × Engine J
  begin_activation e =
      if e.active || not (has_packages e.prepared)
      then (not_needed, e)
      else if e.loading
      then (busy in_progress, e)
      else (
        refreshing e.prepared.root (fingerprint dump size e.prepared),
        record e { loading = true },
      )

-- What `Refresh` and `CatalogSnapshot` came to: the result with the report, or an exception.
pub data Refreshed (J : Type 0) : Type 0 where
  refreshed : OperationResult → J → Refreshed J
  threw : Refreshed J

-- The handler, or the second critical section of `Activate`.
abbrev pub end_activation : {J : Type 0} → Refreshed J → Engine J → Engine J
end_activation threw e = record e { loading = false }
end_activation (refreshed r report) e = record e {
  loading = false;
  active = succeeded r;
  last_catalog_report = some (from_runtime report);
}
