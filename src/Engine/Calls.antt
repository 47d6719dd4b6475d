-- ===== src/Engine/Calls.antt =====
-- The calls of Api/EngineFunctions.h in source/ARTestEngine on one engine, in the order in which the
-- engine's mutex lets them through. Handles are positions, sessions are known by their leases.
use artest_cli.Base.{
  Bool, ℕ, zero, suc, ◌+◌, Option, none, some, List, [], ◌∷◌, String, ◌==◌, if◌then◌else◌,
}
use artest_cli.Catalog.Components.{ComponentDescriptor}
use artest_cli.Diagnostics.{Outcome}
use artest_cli.Engine.Context.{
  Engine, Activation, Refreshed, not_needed, busy, refreshing, new_engine, prepare,
  begin_activation, end_activation,
}
use artest_cli.Engine.Plans.{CompiledPlan, released, compile_for_engine}
use artest_cli.Engine.Scan.{CatalogScan}
use artest_cli.Engine.Sessions.{SessionHandle, expired, start_session, destroy_session, wait_for}
use artest_cli.Json.{Json}

-- The engine, the threads between the two sections of `Activate` with what they refresh, and the
-- handles. `leases` counts the leases given out, and `pinned` is what the last refresh was given.
pub record Handles (J R : Type 0) : Type 0 where
  pub engine : Engine J
  pub activating : List (String × String)
  pub pinned : Option (String × String)
  pub plans : List (CompiledPlan J)
  pub sessions : List (SessionHandle J R)
  pub leases : ℕ

-- A call with what its environment answers. `adopt_plan` is a plan handle of another engine.
pub data ApiCall (J R : Type 0) : Type 0 where
  prepare_catalog : CatalogScan J → ApiCall J R
  activate_begins : ApiCall J R
  activate_ends : ℕ → Refreshed J → ApiCall J R
  compile_plan : String → ApiCall J R
  adopt_plan : CompiledPlan J → ApiCall J R
  destroy_plan : ℕ → ApiCall J R
  start : ℕ → ApiCall J R
  wait : ℕ → Option Bool → R → ApiCall J R
  destroy : ℕ → ApiCall J R

module _ {A : Type 0} where
  unfoldable pub entry_at : ℕ → List A → Option A
  entry_at n [] = none
  entry_at zero (x ∷ xs) = some x
  entry_at (suc n) (x ∷ xs) = entry_at n xs

  unfoldable pub erase_at : ℕ → List A → List A
  erase_at n [] = []
  erase_at zero (x ∷ xs) = xs
  erase_at (suc n) (x ∷ xs) = x ∷ erase_at n xs

module _ (j : Json) (parse : String → Outcome j.Value) (dump : j.Value → String) (size : String → ℕ)
    (intrinsic : List (ComponentDescriptor j.Value)) {R : Type 0} where
  open j use {Value}

  abbrev pub new_handles : ℕ → Handles Value R
  new_handles address = record {
    engine = new_engine intrinsic address;
    activating = [];
    pinned = none;
    plans = [];
    sessions = [];
    leases = 0;
  }

  abbrev pub begun : Activation × Engine Value → Handles Value R → Handles Value R
  begun (not_needed, e) h = record h { engine = e }
  begun (busy r, e) h = record h { engine = e }
  begun (refreshing root print, e) h = record h {
    engine = e;
    activating = (root, print) ∷ h.activating;
  }

  abbrev pub ended :
      Option (String × String) → ℕ → Refreshed Value → Handles Value R → Handles Value R
  ended none k r h = h
  ended (some a) k r h = record h {
    engine = end_activation r h.engine;
    activating = erase_at k h.activating;
    pinned = some a;
  }

  abbrev pub started : Option (CompiledPlan Value) → Handles Value R → Handles Value R
  started none h = h
  started (some p) h =
      let (status, e, ss) = start_session h.leases p h.engine h.sessions in
      record h { engine = e; sessions = ss; leases = h.leases + 1 }

  -- The plan handle that a compilation gives out.
  abbrev pub with_plan : Option (CompiledPlan Value) → Handles Value R → Handles Value R
  with_plan none h = h
  with_plan (some p) h = record h { plans = p ∷ h.plans }

  -- None where the language does not define the compilation.
  unfoldable pub perform_call : ApiCall Value R → Handles Value R → Option (Handles Value R)
  perform_call (prepare_catalog scan) h = some (record h {
    engine = (prepare intrinsic (expired h.sessions h.engine.run_lease) scan h.engine).1;
  })
  perform_call activate_begins h = some (begun (begin_activation dump size h.engine) h)
  perform_call (activate_ends k r) h = some (ended (entry_at k h.activating) k r h)
  perform_call (compile_plan content) h = elim (compile_for_engine j parse h.engine content) [
    | none ↦ none
    | some a ↦ some (with_plan (released a) h)
  ]
  perform_call (adopt_plan p) h =
      if p.owner == h.engine.address then some h else some (with_plan (some p) h)
  perform_call (destroy_plan k) h = some (record h { plans = erase_at k h.plans })
  perform_call (start k) h = some (started (entry_at k h.plans) h)
  perform_call (wait l ready final) h =
      some (record h { sessions = wait_for l ready final h.sessions })
  perform_call (destroy l) h = some (record h { sessions = destroy_session l h.sessions })

  unfoldable pub perform_calls : List (ApiCall Value R) → Handles Value R → Option (Handles Value R)
  perform_calls [] h = some h
  perform_calls (c ∷ cs) h = elim (perform_call c h) [ none ↦ none | some h' ↦ perform_calls cs h' ]
