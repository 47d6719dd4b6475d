-- ===== src/Tests/Parts.antt =====
-- Loading instruments and waiting on the simulated host.
use artest_cli.Base.{
  ◌≡◌, ◌⊎◌, refl, ℕ, ◌≤◌, true, false, Option, none, some, [], ◌∷◌, keys, String, str_eq,
  if◌then◌else◌,
}
use artest_cli.Base.Int.{pos}
use artest_cli.Cancellation.{source_token}
use artest_cli.Commands.Wait.{execute_wait, execute_wait-lasts}
use artest_cli.Compiler.Plan.{InstrumentDefinition}
use artest_cli.Diagnostics.{succeeded}
use artest_cli.Instruments.Entries.{AreDistinct}
use artest_cli.Instruments.Lifecycle.{IsIdle}
use artest_cli.Instruments.Loaded.{load_definitions_atomic}
use artest_cli.Instruments.Loading.{
  load_one, load_loop, create_device, name_device, load_definitions,
}
use artest_cli.Results.{StepStatus}
use artest_cli.Tests.Bench.{demo, manager_of, quiet}

abbrev drivers : String → Option ℕ
drivers name = if str_eq name "supply" then some 4 else none

abbrev supply : String → InstrumentDefinition ℕ
supply id = record { device_type = "supply"; id = id; configuration = 3 }

-- The map is in the order of the keys.
loads :
    keys
      (load_definitions demo drivers
        (supply "PS9" ∷ supply "PS3" ∷ [])
        (manager_of 2)).1.instruments
    ≡ "PS3" ∷ "PS9" ∷ []
unfolding load_definitions load_loop load_one create_device name_device
loads = refl

-- The same identifier twice is an error.
repeats :
    succeeded (load_definitions demo drivers (supply "PS9" ∷ supply "PS9" ∷ []) (manager_of 2)).0
    ≡ false
unfolding load_definitions load_loop load_one create_device name_device
repeats = refl

load_definitions_atomic_example :
    let (r, n) = load_definitions demo drivers (supply "PS9" ∷ supply "PS3" ∷ []) (manager_of 2) in
    ((succeeded r ≡ false)
      × (n.instruments ≡ (manager_of 2).instruments)
      × (n.initialization_order ≡ []))
    ⊎ ((succeeded r ≡ true)
        × AreDistinct (keys n.instruments)
        × IsIdle n.instruments
        × (n.initialization_order ≡ []))
load_definitions_atomic_example =
    load_definitions_atomic demo drivers (supply "PS9" ∷ supply "PS3" ∷ []) (manager_of 2)

execute_wait-lasts_example :
    let (r, w1) = execute_wait {J = ℕ} 0 (record { milliseconds = pos 40 }) source_token quiet in
    ((r.status ≡ StepStatus.passed) × (1040 ≤ w1.clock))
    ⊎ ((r.status ≡ StepStatus.cancelled) ⊎ (r.status ≡ StepStatus.timed_out))
execute_wait-lasts_example =
    execute_wait-lasts 0 (record { milliseconds = pos 40 }) source_token quiet
