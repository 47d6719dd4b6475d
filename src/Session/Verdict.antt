-- ===== src/Session/Verdict.antt =====
-- When a session has passed.
use artest_cli.Base.{ℕ, ◌≡◌, ◌⊎◌, true, Option, List, String, length, All}
use artest_cli.Diagnostics.{OperationResult, succeeded, returned}
use artest_cli.Executor.Attempts.{RuntimeStep}
use artest_cli.Executor.Verdict.{IsPassed}
use artest_cli.Host.{Host}
use artest_cli.Instruments.Manager.{shutdown_all}
use artest_cli.Results.{RunResult}
use artest_cli.Session.Binding.{Setup, ready, refused, thrown, Manager}
use artest_cli.Session.Worker.{Session, Hook, run_hook}

-- Every planned step has a record, and has passed.
abbrev pub HasPassed : {J : Type 0} → ℕ → RunResult J → Type 0
HasPassed planned run = (length run.steps ≡ planned) × All IsPassed run.steps

module _ (h : Host) (lookup : String → Option h.CommandCreator) (prepare finish : Hook h) where
  open h use {Json, Command, Bench}

  -- The steps that were made ready are as many as planned, unless cancellation was requested.
  abbrev Ready : ℕ → Setup (List (RuntimeStep Command)) × Manager h lookup → Type 0
  Ready n (ready ss, m) = (length ss ≡ n) ⊎ (m.world.requested ≡ true)
  Ready n (refused ds, m) = Unit
  Ready n (thrown what, m) = Unit

  -- The steps bound are as many as the compiled ones.
  abbrev Bound : ℕ → Setup (List (RuntimeStep Command)) × Manager h lookup → Type 0
  Bound n (ready ss, m) = length ss ≡ n
  Bound n (refused ds, m) = Unit
  Bound n (thrown what, m) = Unit

  -- The cleanup succeeds: the instruments' shutdown reports no error, and the runtime's end returns and
  -- succeeds.
  abbrev pub IsCleanedUp : Manager h lookup → Type 0
  IsCleanedUp m =
      let (down, m1) = shutdown_all h m in
      (succeeded (record { diagnostics = down }) ≡ true)
      × ((r : OperationResult) × ((run_hook h lookup prepare finish finish m1).0 ≡ returned r)
          × (succeeded r ≡ true))
