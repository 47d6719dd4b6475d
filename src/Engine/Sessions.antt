-- ===== src/Engine/Sessions.antt =====
-- Api/EngineSessionApi.cpp of source/ARTestEngine with `ARTestSessionOpaque` of EngineHandles.h.
use artest_cli.Base.{
  ◌||◌, not, Bool, true, false, ℕ, Option, none, some, List, [], ◌∷◌, any, ◌==◌, if◌then◌else◌,
}
use artest_cli.Compiler.Plan.{InstrumentDefinition}
use artest_cli.Engine.Context.{Engine}
use artest_cli.Engine.Plans.{CompiledPlan}
use artest_cli.Session.Binding.{CompiledStep}

-- `lease` is the number that the shared pointer owns; `R` are the results of a run.
pub record SessionHandle (J R : Type 0) : Type 0 where
  pub lease : ℕ
  pub definitions : List (InstrumentDefinition J)
  pub steps : List (CompiledStep J)
  pub result : Option R

-- The status codes of the calls below.
pub data ApiStatus : Type 0 where
  ok invalid_argument invalid_state : ApiStatus

module _ {J R : Type 0} where
  -- `weak_ptr::expired`: no session owns the target.
  unfoldable pub expired : List (SessionHandle J R) → Option ℕ → Bool
  expired ss none = true
  expired ss (some l) = not (any (λ s. s.lease == l) ss)

  abbrev pub new_session : ℕ → CompiledPlan J → SessionHandle J R
  new_session fresh p = record {
    lease = fresh;
    definitions = p.plan.instruments;
    steps = p.steps;
    result = none;
  }

  -- `StartSessionInternal` until the lease is taken and the session holds the plan's steps; the lease
  -- is the number `fresh`. When `Start` then fails the session is destroyed as below.
  unfoldable pub start_session :
      ℕ
      → CompiledPlan J
      → Engine J
      → List (SessionHandle J R)
      → ApiStatus × Engine J × List (SessionHandle J R)
  start_session fresh p e ss =
      if not (p.owner == e.address)
      then (invalid_argument, e, ss)
      else if not (p.revision == e.revision) || not (expired ss e.run_lease)
      then (invalid_state, e, ss)
      else (ok, record e { run_lease = some fresh }, new_session fresh p ∷ ss)

  -- `DestroySession`.
  unfoldable pub destroy_session : ℕ → List (SessionHandle J R) → List (SessionHandle J R)
  destroy_session l [] = []
  destroy_session l (s ∷ ss) =
      let rest = destroy_session l ss in if s.lease == l then rest else s ∷ rest

  -- `WaitSession`: what `WaitFor` answers, or none for a wait without limit, and what `Wait` gives.
  unfoldable pub wait_session : Option Bool → R → SessionHandle J R → Bool × SessionHandle J R
  wait_session ready final s = elim s.result [
    | some r ↦ (true, s)
    | none ↦ elim ready [ some false ↦ (false, s) | _ ↦ (true, record s { result = some final }) ]
  ]

  -- `GetSessionResult`.
  unfoldable pub get_session_result : SessionHandle J R → ApiStatus × Option R
  get_session_result s = elim s.result [ none ↦ (invalid_state, none) | some r ↦ (ok, some r) ]

  -- `WaitSession` on the session that holds a lease.
  unfoldable pub wait_for :
      ℕ → Option Bool → R → List (SessionHandle J R) → List (SessionHandle J R)
  wait_for l ready final [] = []
  wait_for l ready final (s ∷ ss) =
      let rest = wait_for l ready final ss in
      if s.lease == l then (wait_session ready final s).1 ∷ rest else s ∷ rest
