-- ===== src/Session/Instruments.antt =====
-- No session leaves an instrument initialised.
use artest_cli.Base.{
  ℕ, ◌≡◌, refl, ap, reverse, ◌∙◌, inl, inr, Option, none, some, List, [], ◌∷◌, String, keys,
  Bool-cases, arith,
}
use artest_cli.World.{now}
use artest_cli.Instruments.Calls.{Ended, initialised, call_each, ended_by, shutdown_all-call_each}
use artest_cli.Diagnostics.{Diagnostic, Outcome, OperationResult, succeeded, returned, raised}
use artest_cli.Executor.Attempts.{RuntimeStep}
use artest_cli.Host.{Host}
use artest_cli.Instruments.Manager.{InstrumentManager, initialize_all, shutdown_all}
use artest_cli.Instruments.Entries.{AreDistinct}
use artest_cli.Instruments.Lifecycle.{IsIdle, IsIdle-Covers}
use artest_cli.Instruments.Tracked.{IsTracked, initialize_all-IsTracked, shutdown_all-IsTracked}
use artest_cli.Results.{RunStatus}
use artest_cli.Session.Binding.{
  CompiledStep, Setup, ready, refused, thrown, Manager, bind_step, bind_commands, bound_all,
  prepend,
}
use artest_cli.Session.Worker.{
  SessionSteps, runtime, compiled, Session, Hook, transition_to, body, run_steps, bind_steps,
  enter_cleanup, clean_up, run_hook, initialize_and_bind, after_prepare, set_up, run_worker, asked,
  before_cleanup, in_world,
}
use artest_cli.StateMachine.{ExecutionState}

module _ (h : Host) (lookup : String → Option h.CommandCreator) (prepare finish : Hook h) where
  open h use {Json, Command, Bench}

  -- The map and the order of initialisation are the same.
  pub record Keeps (m n : InstrumentManager h) : Type 0 where
    pub instruments_kept : n.instruments ≡ m.instruments
    pub order_kept : n.initialization_order ≡ m.initialization_order

  Keeps-refl : (m : InstrumentManager h) → Keeps m m
  Keeps-refl m = record { instruments_kept = refl; order_kept = refl }

  Keeps-trans : (l m n : InstrumentManager h) → Keeps l m → Keeps m n → Keeps l n
  Keeps-trans l m n p q = record {
    instruments_kept = q.instruments_kept ∙ p.instruments_kept;
    order_kept = q.order_kept ∙ p.order_kept;
  }

  Keeps-IsTracked : (m n : InstrumentManager h) → Keeps m n → IsTracked h m → IsTracked h n
  Keeps-IsTracked m n k t = record {
    distinct = rw (k.instruments_kept) t.distinct;
    covered = rw (k.instruments_kept, k.order_kept) t.covered;
    settled = rw (k.instruments_kept, k.order_kept) t.settled;
  }

  bind_step-Keeps :
      (s : CompiledStep Json) (m : InstrumentManager h) → Keeps m (bind_step h lookup s m).1
  unfolding bind_step
  bind_step-Keeps s m = ground arith

  bound_all-Keeps :
      {A : Type 0} (m : InstrumentManager h) (x : Setup A × Manager h lookup)
      (next : A → Manager h lookup → Setup (List A) × Manager h lookup)
      → ((a : A) (n : InstrumentManager h) → Keeps n (next a n).1)
      → Keeps m x.1
      → Keeps m (bound_all h lookup x next).1
  bound_all-Keeps m (ready a, n) next f k = Keeps-trans m n _ k (f a n)
  bound_all-Keeps m (refused ds, n) next f k = k
  bound_all-Keeps m (thrown what, n) next f k = k

  prepend-Keeps :
      {A : Type 0} (m : InstrumentManager h) (a : A) (x : Setup (List A) × Manager h lookup)
      → Keeps m x.1
      → Keeps m (prepend h lookup a x).1
  prepend-Keeps m a (ready xs, n) k = k
  prepend-Keeps m a (refused ds, n) k = k
  prepend-Keeps m a (thrown what, n) k = k

  bind_commands-Keeps :
      (ss : List (CompiledStep Json)) (m : InstrumentManager h)
      → Keeps m (bind_commands h lookup ss m).1
  unfolding bind_commands
  bind_commands-Keeps [] m = Keeps-refl m
  bind_commands-Keeps (s ∷ ss) m =
      bound_all-Keeps m (bind_step h lookup s m) _
        (λ a n. prepend-Keeps n a (bind_commands h lookup ss n) (bind_commands-Keeps ss n))
        (bind_step-Keeps s m)

  asked-Keeps : (m : InstrumentManager h) → Keeps m (asked h lookup prepare finish m).1
  unfolding asked
  asked-Keeps m = record { instruments_kept = refl; order_kept = refl }

  run_hook-Keeps :
      (f : Hook h) (m : InstrumentManager h) → Keeps m (run_hook h lookup prepare finish f m).1
  unfolding run_hook
  run_hook-Keeps none m = Keeps-refl m
  run_hook-Keeps (some f) m = record { instruments_kept = refl; order_kept = refl }

  bind_steps-Keeps :
      (steps : SessionSteps Json Command) (m : InstrumentManager h)
      → Keeps m (bind_steps h lookup prepare finish steps m).1
  unfolding bind_steps
  bind_steps-Keeps (runtime ss) m = Keeps-refl m
  bind_steps-Keeps (compiled ss) m = bind_commands-Keeps ss m

  initialize_and_bind-IsTracked :
      (steps : SessionSteps Json Command) (m : InstrumentManager h)
      → AreDistinct (keys m.instruments)
      → IsIdle m.instruments
      → IsTracked h (initialize_and_bind h lookup prepare finish steps m).1
  unfolding initialize_and_bind
  initialize_and_bind-IsTracked steps m d idle =
      let (r, m1) = initialize_all h m in
      let (stop, m2) = asked h lookup prepare finish m1 in
      let t1 : IsTracked h m1 = initialize_all-IsTracked h m d idle in
      let t2 : IsTracked h m2 = Keeps-IsTracked m1 m2 (asked-Keeps m1) t1 in
      elim (Bool-cases (succeeded r)) [
        | inr f ↦ rw f t1
        | inl y ↦ rw y (elim (Bool-cases stop) [
          | inl c ↦ rw c t2
          | inr n ↦ rw n (Keeps-IsTracked m2 _ (bind_steps-Keeps steps m2) t2)
        ])
      ]

  after_prepare-IsTracked :
      (steps : SessionSteps Json Command) (x : Outcome OperationResult × Manager h lookup)
      → AreDistinct (keys x.1.instruments)
      → IsIdle x.1.instruments
      → IsTracked h x.1
      → IsTracked h (after_prepare h lookup prepare finish steps x).1
  after_prepare-IsTracked steps (raised what, m) d i t = t
  after_prepare-IsTracked steps (returned r, m) d i t = elim (Bool-cases (succeeded r)) [
    | inr f ↦ rw f t
    | inl y ↦ rw y (initialize_and_bind-IsTracked steps m d i)
  ]

  set_up-IsTracked :
      (steps : SessionSteps Json Command) (m : InstrumentManager h)
      → AreDistinct (keys m.instruments)
      → IsIdle m.instruments
      → IsTracked h (set_up h lookup prepare finish steps m).1
  unfolding set_up
  set_up-IsTracked steps m d idle =
      let k = run_hook-Keeps prepare m in
      let x = run_hook h lookup prepare finish prepare m in
      let d1 : AreDistinct (keys x.1.instruments) = rw k.instruments_kept d in
      let idle1 : IsIdle x.1.instruments = rw k.instruments_kept idle in
      after_prepare-IsTracked steps x d1 idle1 (record {
        distinct = d1;
        covered = IsIdle-Covers h _ x.1.instruments idle1;
        settled = inr idle1;
      })

  body-Keeps :
      (n : ℕ) (x : Setup (List (RuntimeStep Command))) (s : Session h lookup prepare finish)
      → Keeps s.manager (body h lookup prepare finish n x s).1.manager
  unfolding body run_steps transition_to asked
  body-Keeps n (refused ds) s = record { instruments_kept = refl; order_kept = refl }
  body-Keeps n (thrown what) s = record { instruments_kept = refl; order_kept = refl }
  body-Keeps n (ready steps) s = ground arith

  enter_cleanup-Keeps :
      (v : RunStatus) (s : Session h lookup prepare finish)
      → Keeps s.manager (enter_cleanup h lookup prepare finish v s).manager
  unfolding enter_cleanup transition_to
  enter_cleanup-Keeps v s = ground arith

  clean_up-IsIdle :
      (m : InstrumentManager h)
      → IsTracked h m
      → IsIdle (clean_up h lookup prepare finish m).1.instruments
  unfolding clean_up
  clean_up-IsIdle m t =
      rw (run_hook-Keeps finish (shutdown_all h m).1).instruments_kept
        (shutdown_all-IsTracked h m t)

  transition_to-Keeps :
      (next : ExecutionState) (s : Session h lookup prepare finish)
      → Keeps s.manager (transition_to h lookup prepare finish next s).1.manager
  unfolding transition_to
  transition_to-Keeps next s = ground arith

  before_cleanup-IsTracked :
      (steps : SessionSteps Json Command) (s : Session h lookup prepare finish)
      → AreDistinct (keys s.manager.instruments)
      → IsIdle s.manager.instruments
      → IsTracked h (before_cleanup h lookup prepare finish steps s).1.manager
  unfolding before_cleanup
  before_cleanup-IsTracked steps s d idle =
      Keeps-IsTracked _ _ (enter_cleanup-Keeps _ _)
        (Keeps-IsTracked _ _ (body-Keeps _ _ _) (set_up-IsTracked steps _ d idle))

  -- The bench after the end of the runtime, which may be empty.
  abbrev pub bench_after : Hook h → Ended h → Bench
  bench_after none e = e.bench
  bench_after (some f) e = (f e.bench e.world).bench

  run_hook-bench :
      (f : Hook h) (x : List Diagnostic × InstrumentManager h)
      → (run_hook h lookup prepare finish f x.1).1.bench ≡ bench_after f (ended_by h x)
  unfolding run_hook
  run_hook-bench none x = refl
  run_hook-bench (some f) x = refl

  clean_up-bench :
      (m : InstrumentManager h)
      → IsTracked h m
      → (clean_up h lookup prepare finish m).1.bench
        ≡ bench_after finish (call_each h (reverse (initialised h m.instruments)) m.bench m.world)
  unfolding clean_up
  clean_up-bench m t =
      run_hook-bench finish (shutdown_all h m)
      ∙ ap (bench_after finish) (shutdown_all-call_each h m t.distinct t.settled)

  transition_to-bench :
      (next : ExecutionState) (s : Session h lookup prepare finish)
      → (transition_to h lookup prepare finish next s).1.manager.bench ≡ s.manager.bench
  unfolding transition_to
  transition_to-bench next s = ground arith

  -- A session that starts with no initialised instrument leaves none initialised. Whatever fails, throws
  -- or is cancelled on the way, its cleanup calls `Shutdown` of every instrument that is initialised
  -- when the cleanup begins, the last one first, each on the bench that the one before leaves, and of no
  -- other. The shutdown reports what these calls answer, and the bench at the end is what they and then
  -- the runtime's end leave.
  pub run_worker-IsIdle :
      (steps : SessionSteps Json Command) (s : Session h lookup prepare finish)
      → AreDistinct (keys s.manager.instruments)
      → IsIdle s.manager.instruments
      → let n = (run_worker h lookup prepare finish steps s).1.manager in
        let started = in_world h lookup prepare finish (λ w. (now w).1) s in
        let m = (before_cleanup h lookup prepare finish steps started).1.manager in
        let down = call_each h (reverse (initialised h m.instruments)) m.bench m.world in
        IsIdle n.instruments
        × ((shutdown_all h m).0 ≡ down.diagnostics)
        × (n.bench ≡ bench_after finish down)
  unfolding run_worker
  run_worker-IsIdle steps s d idle =
      let started = in_world h lookup prepare finish (λ w. (now w).1) s in
      let m = (before_cleanup h lookup prepare finish steps started).1.manager in
      let t = before_cleanup-IsTracked steps started d idle in
      (
        rw (transition_to-Keeps _ _).instruments_kept (clean_up-IsIdle _ t),
        ap (λ e. e.diagnostics) (shutdown_all-call_each h m t.distinct t.settled),
        transition_to-bench _ _ ∙ clean_up-bench _ t,
      )
