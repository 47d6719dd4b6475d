-- ===== src/Instruments/Loading.antt =====
-- `LoadDefinitions` of Instruments/InstrumentManager.cpp in source/ARTestEngine.Core: it builds a
-- new map next to the old one, which it replaces if no definition had an error.
use artest_cli.Base.{
  ℕ, suc, ◌||◌, false, Option, none, some, List, [], ◌∷◌, ◌++◌, keys, String, ◌⧺◌, str_lt, is_empty,
  to_string, if◌then◌else◌,
}
use artest_cli.Compiler.Plan.{InstrumentDefinition}
use artest_cli.Diagnostics.{
  Diagnostic, OperationResult, returned, raised, error_at, succeeded, what_or,
}
use artest_cli.Host.{Host, Reply}
use artest_cli.Instruments.Entries.{contains}
use artest_cli.Instruments.Manager.{InstrumentEntry, Entries, InstrumentManager, shutdown_all}
use artest_cli.World.{World, apply_effect}

module _ {J D : Type 0} where
  -- `emplace` of a key that is not there.
  abbrev pub enter : String → InstrumentEntry J D → Entries J D → Entries J D
  enter id e [] = (id, e) ∷ []
  enter id e ((k, f) ∷ es) = if str_lt id k then (id, e) ∷ (k, f) ∷ es else (k, f) ∷ enter id e es

module _ (h : Host) (types : String → Option h.InstrumentCreator) where
  open h use {Json, Device, Bench, create_instrument, set_id}

  -- The map that is built, and the bench and the world so far.
  pub record Loading : Type 0 where
    pub loaded : Entries Json Device
    pub bench : Bench
    pub world : World

  abbrev pub after_reply : {A : Type 0} → Reply Bench A → Loading → Loading
  after_reply r l = record l { bench = r.bench; world = apply_effect r.effect l.world }

  abbrev pub exception : Option String → String → List Diagnostic
  exception what location =
      error_at "INSTRUMENT_CREATION_EXCEPTION"
        (what_or "Unknown exception while creating the instrument." what) location
      ∷ []

  abbrev pub new_entry : InstrumentDefinition Json → Device → InstrumentEntry Json Device
  new_entry i d = record { device = d; configuration = i.configuration; initialized = false }

  -- `SetId` and the entry for a created instrument.
  unfoldable pub name_device :
      String → InstrumentDefinition Json → Device → Loading → List Diagnostic × Loading
  name_device location i d l =
      let r = set_id d i.id l.bench l.world in
      elim r.outcome [
        | raised what ↦ (exception what location, after_reply r l)
        | returned u ↦
            ([], record (after_reply r l) { loaded = enter i.id (new_entry i d) l.loaded })
      ]

  unfoldable pub create_device :
      String → InstrumentDefinition Json → h.InstrumentCreator → Loading → List Diagnostic × Loading
  create_device location i creator l =
      let r = create_instrument creator l.bench l.world in
      elim r.outcome [
        | raised what ↦ (exception what location, after_reply r l)
        | returned o ↦ elim o [
          | none ↦ (
            error_at "INSTRUMENT_TYPE_UNKNOWN" ("Unknown instrument type: " ⧺ i.device_type)
                  location
                ∷ [],
            after_reply r l,
          )
          | some d ↦ name_device location i d (after_reply r l)
        ]
      ]

  -- The body of the loop.
  unfoldable pub load_one : String → InstrumentDefinition Json → Loading → List Diagnostic × Loading
  load_one location i l =
      if is_empty i.id || contains i.id (keys l.loaded)
      then (
        error_at "INSTRUMENT_ID_INVALID" "Instrument identifiers must be non-empty and unique."
              location
            ∷ [],
        l,
      )
      else elim (types i.device_type) [
        | none ↦ (
          error_at "INSTRUMENT_TYPE_UNKNOWN" ("Unknown instrument type: " ⧺ i.device_type) location
              ∷ [],
          l,
        )
        | some creator ↦ create_device location i creator l
      ]

  unfoldable pub load_loop :
      ℕ → List (InstrumentDefinition Json) → Loading → List Diagnostic × Loading
  load_loop index [] l = ([], l)
  load_loop index (i ∷ is) l =
      let (ds, l1) = load_one ("instruments[" ⧺ to_string index ⧺ "]") i l in
      let (rest, l2) = load_loop (suc index) is l1 in (ds ++ rest, l2)

  -- `LoadDefinitions`.
  unfoldable pub load_definitions :
      List (InstrumentDefinition Json) → InstrumentManager h → OperationResult × InstrumentManager h
  load_definitions is m =
      let (ds, l) = load_loop 0 is (record { loaded = []; bench = m.bench; world = m.world }) in
      let m1 : InstrumentManager h = record m { bench = l.bench; world = l.world } in
      if succeeded (record { diagnostics = ds })
      then (record { diagnostics = ds }, record (shutdown_all h m1).1 { instruments = l.loaded })
      else (record { diagnostics = ds }, m1)
