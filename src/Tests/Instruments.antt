-- ===== src/Tests/Instruments.antt =====
-- The instrument manager on the simulated host, where one instrument does not answer.
use artest_cli.Base.{◌≡◌, ◌⊎◌, refl, true, false, [], ◌∷◌}
use artest_cli.Diagnostics.{succeeded}
use artest_cli.Instruments.Entries.{clear}
use artest_cli.Instruments.Lifecycle.{IsIdle, IsReady, initialize_all_atomic, shutdown_loop-clear}
use artest_cli.Instruments.Manager.{initialize_all, shutdown_loop}
use artest_cli.Tests.Bench.{demo, manager_of}

initialize_all_atomic_example :
    let (r, n) = initialize_all demo (manager_of 9) in
    ((succeeded r ≡ true) × IsReady n.instruments × (n.initialization_order ≡ "PS1" ∷ "PS2" ∷ []))
    ⊎ ((succeeded r ≡ false) × IsIdle n.instruments × (n.initialization_order ≡ []))
initialize_all_atomic_example =
    initialize_all_atomic demo (manager_of 9) ((refl, tt), (tt, tt)) (refl, (refl, tt))

shutdown_loop-clear_example :
    (shutdown_loop demo ("PS2" ∷ "PS1" ∷ []) (manager_of 2)).1.instruments
    ≡ clear ("PS2" ∷ "PS1" ∷ []) (manager_of 2).instruments
shutdown_loop-clear_example =
    shutdown_loop-clear demo ("PS2" ∷ "PS1" ∷ []) (manager_of 2) ((refl, tt), (tt, tt))
