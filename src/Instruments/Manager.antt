-- ===== src/Instruments/Manager.antt =====
-- Instruments/InstrumentManager.cpp of source/ARTestEngine.Core: the entries of the map in the order
-- of their keys, the order of initialisation, and what initialising and shutting down do to them.
use artest_cli.Base.{
  Bool, true, false, Option, none, some, List, [], ◌∷◌, ◌++◌, map, reverse, String, ◌⧺◌, str_eq,
  is_empty, if◌then◌else◌,
}
use artest_cli.Diagnostics.{
  Diagnostic, OperationResult, Outcome, returned, raised, error_at, succeeded, what_or,
}
use artest_cli.Host.{Host}
use artest_cli.World.{
  World, direct, EngineEventKind, EngineEventSeverity, event, instrument_initializing,
  instrument_initialized, instrument_shutdown, publish, apply_effect,
}

pub record InstrumentEntry (J D : Type 0) : Type 0 where
  pub device : D
  pub configuration : J
  pub initialized : Bool

-- `std::map` by the order of its keys.
abbrev pub Entries : Type 0 → Type 0 → Type 0
Entries J D = List (String × InstrumentEntry J D)

module _ {J D : Type 0} where
  unfoldable pub find : String → Entries J D → Option (InstrumentEntry J D)
  find id [] = none
  find id ((k, e) ∷ rest) = if str_eq k id then some e else find id rest

  -- `entry->second.initialized = value` for the entry found under `id`.
  unfoldable pub mark : String → Bool → Entries J D → Entries J D
  mark id value [] = []
  mark id value ((k, e) ∷ rest) =
      if str_eq k id
      then (k, record e { initialized = value }) ∷ rest
      else (k, e) ∷ mark id value rest

-- Diagnostics without a location are given the instrument's.
abbrev pub locate : String → Diagnostic → Diagnostic
locate id d = if is_empty d.location then record d { location = "instrument=" ⧺ id } else d

module _ (h : Host) where
  open h use {Json, Device, Bench, initialize, shutdown}

  pub record InstrumentManager : Type 0 where
    pub instruments : Entries Json Device
    pub initialization_order : List String
    pub bench : Bench
    pub world : World

  -- What the call of `Shutdown` or `Initialize` answers as diagnostics.
  abbrev pub answer : String → String → String → Outcome OperationResult → List Diagnostic
  answer id code unknown (returned r) = map (locate id) r.diagnostics
  answer id code unknown (raised what) =
      error_at code (what_or unknown what) ("instrument=" ⧺ id) ∷ []

  abbrev pub instrument_event : EngineEventKind → String → String → World → World
  instrument_event kind id text w =
      publish direct (event kind EngineEventSeverity.information id text) w

  -- The body of the loop of `ShutdownAll`.
  unfoldable pub shutdown_one : String → InstrumentManager → List Diagnostic × InstrumentManager
  shutdown_one id m = elim (find id m.instruments) [
    | none ↦ ([], m)
    | some e ↦
        let reply = shutdown e.device m.bench m.world in
        if e.initialized
        then (
          answer id "INSTRUMENT_SHUTDOWN_EXCEPTION"
              "Unknown exception while shutting down the instrument." reply.outcome,
          record m {
            instruments = mark id false m.instruments;
            bench = reply.bench;
            world =
                instrument_event instrument_shutdown id "Instrument shut down."
                  (apply_effect reply.effect m.world);
          },
        )
        else ([], m)
  ]

  unfoldable pub shutdown_loop :
      List String → InstrumentManager → List Diagnostic × InstrumentManager
  shutdown_loop [] m = ([], m)
  shutdown_loop (id ∷ ids) m =
      let (ds, m1) = shutdown_one id m in let (rest, m2) = shutdown_loop ids m1 in (ds ++ rest, m2)

  -- `ShutdownAll`.
  unfoldable pub shutdown_all : InstrumentManager → List Diagnostic × InstrumentManager
  shutdown_all m =
      let (ds, m1) = shutdown_loop (reverse m.initialization_order) m in
      (ds, record m1 { initialization_order = [] })

  -- Where the loop of `InitializeAll` has come to: the entries it went through, the identifiers it
  -- pushed, and the diagnostics of the instrument that stopped it.
  pub record Initialization : Type 0 where
    pub entries : Entries Json Device
    pub pushed : List String
    pub diagnostics : List Diagnostic
    pub bench : Bench
    pub world : World

  abbrev stopped : Entries Json Device → List Diagnostic → Bench → World → Initialization
  stopped es ds b w = record { entries = es; pushed = []; diagnostics = ds; bench = b; world = w }

  abbrev pub has_succeeded : Outcome OperationResult → Bool
  has_succeeded (returned r) = succeeded r
  has_succeeded (raised what) = false

  -- The announced call of `Initialize`: its outcome, and the bench and the world after it.
  unfoldable pub initialize_one :
      String → InstrumentEntry Json Device → Bench → World → Outcome OperationResult × Bench × World
  initialize_one id e b w =
      let w1 = instrument_event instrument_initializing id "Initializing instrument." w in
      let reply = initialize e.device e.configuration b w1 in
      (reply.outcome, reply.bench, apply_effect reply.effect w1)

  -- The loop of `InitializeAll`, which writes each entry in place.
  unfoldable pub initialize_loop : Entries Json Device → Bench → World → Initialization
  initialize_loop [] b w = stopped [] [] b w
  initialize_loop ((id, e) ∷ es) b w =
      let (outcome, b1, w1) = initialize_one id e b w in
      let w2 = instrument_event instrument_initialized id "Instrument initialized." w1 in
      let rest = initialize_loop es b1 w2 in
      if has_succeeded outcome
      then record rest {
        entries = (id, record e { initialized = true }) ∷ rest.entries;
        pushed = id ∷ rest.pushed;
      }
      else stopped ((id, e) ∷ es)
          (answer id "INSTRUMENT_INITIALIZATION_EXCEPTION"
            "Unknown exception while initializing the instrument." outcome)
          b1 w1

  -- `InitializeAll`.
  unfoldable pub initialize_all : InstrumentManager → OperationResult × InstrumentManager
  initialize_all m =
      let i = initialize_loop m.instruments m.bench m.world in
      let n : InstrumentManager = record {
        instruments = i.entries;
        initialization_order = i.pushed;
        bench = i.bench;
        world = i.world;
      } in
      let (ds, n') = shutdown_all n in
      if succeeded (record { diagnostics = i.diagnostics })
      then (record { diagnostics = i.diagnostics }, n)
      else (record { diagnostics = i.diagnostics ++ ds }, n')

  -- `GetInstrument`.
  unfoldable pub get_instrument : String → InstrumentManager → Option Device
  unfolding find
  get_instrument id m = elim (find id m.instruments) [ none ↦ none | some e ↦ some e.device ]
