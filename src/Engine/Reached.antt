-- ===== src/Engine/Reached.antt =====
-- What holds of an engine and its handles after any calls.
use artest_cli.Base.{
  ◌≡◌, refl, inl, inr, true, ℕ, suc, ◌+◌, ◌<◌, Option, none, some, List, [], ◌∷◌, length, All,
  String, ◌==◌, arith, Bool-cases,
}
use artest_cli.Catalog.Components.{ComponentDescriptor, add}
use artest_cli.Compiler.Schemas.{HasParameters}
use artest_cli.Diagnostics.{Outcome, succeeded}
use artest_cli.Engine.Calls.{
  Handles, ApiCall, prepare_catalog, activate_begins, activate_ends, compile_plan, adopt_plan,
  destroy_plan, start, wait, destroy, new_handles, with_plan, perform_call, perform_calls,
}
use artest_cli.Engine.Context.{register_intrinsic, revision_limit}
use artest_cli.Engine.Leasing.{with_plans-Kept, with_plan-Kept, wait_for-Kept, destroy_session-Kept}
use artest_cli.Engine.Starting.{started-Kept}
use artest_cli.Engine.Plans.{CompileAttempt, released}
use artest_cli.Engine.Activating.{begin_activation-Kept, ended-Kept}
use artest_cli.Engine.Preparing.{prepare-Kept}
use artest_cli.Engine.Resolving.{IsAttempt, compile_for_engine-IsAttempt}
use artest_cli.Engine.Scan.{components, fingerprint}
use artest_cli.Engine.Sound.{IsSound, Kept, Keeps, AtMostOne, new_handles-IsSound, All-erase_at}
use artest_cli.Json.{Json}

module _ (j : Json) (parse : String → Outcome j.Value) (dump : j.Value → String) (size : String → ℕ)
    (intrinsic : List (ComponentDescriptor j.Value)) {R : Type 0} where
  open j use {Value}

  abbrev call : ApiCall Value R → Handles Value R → Option (Handles Value R)
  call = perform_call j parse dump size intrinsic

  abbrev calls : List (ApiCall Value R) → Handles Value R → Option (Handles Value R)
  calls = perform_calls j parse dump size intrinsic

  abbrev IsKept : ℕ → Option (Handles Value R) → Type 0
  IsKept = Keeps j parse dump size intrinsic

  compiled-Keeps :
      (n : ℕ) (h : Handles Value R) (o : Option (CompileAttempt Value))
      → Kept j parse dump size intrinsic n h
      → IsAttempt j parse h.engine o
      → IsKept (suc n) (elim o as (λ x. Option (Handles Value R)) [
        | none ↦ none
        | some a ↦ some (with_plan j parse dump size intrinsic (released a) h)
      ])
  compiled-Keeps n h none kept a = a
  compiled-Keeps n h (some x) kept a =
      with_plan-Kept j parse dump size intrinsic n h (released x) a kept

  perform_call-Keeps :
      (n : ℕ) (c : ApiCall Value R) (h : Handles Value R)
      → suc n < revision_limit
      → Kept j parse dump size intrinsic n h
      → IsKept (suc n) (call c h)
  unfolding perform_call
  perform_call-Keeps n (prepare_catalog scan) h short kept =
      prepare-Kept j parse dump size intrinsic n scan h short kept
  perform_call-Keeps n activate_begins h short kept =
      begin_activation-Kept j parse dump size intrinsic n h kept
  perform_call-Keeps n (activate_ends k r) h short kept =
      ended-Kept j parse dump size intrinsic n k r h _ refl kept
  perform_call-Keeps n (compile_plan content) h short kept =
      compiled-Keeps n h _ kept (compile_for_engine-IsAttempt j parse h.engine content)
  perform_call-Keeps n (adopt_plan p) h short kept =
      elim (Bool-cases (p.owner == h.engine.address)) [
        | inl y ↦ rw y (omega (arith, kept.0), kept.1)
        | inr m ↦ rw m (
            with_plans-Kept j parse dump size intrinsic n h (p ∷ h.plans)
              ((λ o. ground (arith, o, m)), kept.1.fitting) kept)
      ]
  perform_call-Keeps n (destroy_plan k) h short kept =
      with_plans-Kept j parse dump size intrinsic n h _ (All-erase_at _ k h.plans kept.1.fitting)
        kept
  perform_call-Keeps n (start k) h short kept =
      started-Kept j parse dump size intrinsic n k h _ refl kept
  perform_call-Keeps n (wait l ready final) h short kept =
      wait_for-Kept j parse dump size intrinsic n l ready final h kept
  perform_call-Keeps n (destroy l) h short kept =
      destroy_session-Kept j parse dump size intrinsic n l h kept

  -- The calls that come after a call.
  after_call :
      (m : ℕ) (cs : List (ApiCall Value R)) (k : ℕ) (o : Option (Handles Value R))
      → IsKept k o
      → ((h : Handles Value R) → Kept j parse dump size intrinsic k h → IsKept m (calls cs h))
      → IsKept m (elim o as (λ x. Option (Handles Value R)) [ none ↦ none | some h' ↦ calls cs h' ])
  after_call m cs k none a f = a
  after_call m cs k (some h) a f = f h a

  perform_calls-Keeps :
      (n m : ℕ) (cs : List (ApiCall Value R)) (h : Handles Value R)
      → n + length cs ≡ m
      → m < revision_limit
      → Kept j parse dump size intrinsic n h
      → IsKept m (calls cs h)
  unfolding perform_calls
  perform_calls-Keeps n m [] h e short kept = (omega (arith, e, kept.0), kept.1)
  perform_calls-Keeps n m (c ∷ cs) h e short kept =
      after_call m cs (suc n) (call c h) (perform_call-Keeps n c h (omega (arith, e, short)) kept)
        (λ h' k. perform_calls-Keeps (suc n) m cs h' (omega (arith, e)) short k)

  -- The engine and its handles after some calls.
  abbrev pub After : ℕ → List (ApiCall Value R) → (Handles Value R → Type 0) → Type 0
  After address cs P =
      (h : Handles Value R) × (calls cs (new_handles j parse dump size intrinsic address) ≡ some h)
      × P h

  after_calls :
      (address : ℕ) (cs : List (ApiCall Value R)) (P : Handles Value R → Type 0)
      → length cs < revision_limit
      → ((h : Handles Value R) → IsSound j parse dump size intrinsic h → P h)
      → After address cs P
  after_calls address cs P short f =
      reached (calls cs (new_handles j parse dump size intrinsic address)) (
        perform_calls-Keeps 0 (length cs) cs (new_handles j parse dump size intrinsic address)
          (omega arith) short
          (omega arith, new_handles-IsSound j parse dump size intrinsic address))
    where
      reached :
          (o : Option (Handles Value R))
          → IsKept (length cs) o
          → (h : Handles Value R) × (o ≡ some h) × P h
      reached none a = cc
      reached (some h) a = (h, refl, f h a.1)

  -- Any calls of the interface on a new engine, fewer than the revisions there are, are defined. After
  -- them at most one session is there; it holds the lease of the engine, and every one of its steps
  -- has a command that the catalog in force describes, with parameters among those that the
  -- command's schema describes.
  pub perform_calls-HasParameters :
      (address : ℕ) (cs : List (ApiCall Value R))
      → length cs < revision_limit
      → After address cs (λ h.
        AtMostOne h.sessions
        × All
            (λ s.
              (h.engine.run_lease ≡ some s.lease) × All (HasParameters j h.engine.catalog) s.steps)
            h.sessions)
  perform_calls-HasParameters address cs short =
      after_calls address cs _ short (λ h i. (i.single, i.holding))

  -- Any calls of the interface on a new engine, fewer than the revisions there are, are defined. After
  -- them the catalog in force is the intrinsic components with those of the prepared packages, at most
  -- one thread refreshes the runtime, with the root and the fingerprint of those packages, and if the
  -- engine is active, the last refresh was given these too.
  pub perform_calls-IsPrepared :
      (address : ℕ) (cs : List (ApiCall Value R))
      → length cs < revision_limit
      → After address cs (λ h.
        let given : String × String =
          (h.engine.prepared.root, fingerprint dump size h.engine.prepared) in
        let next = add (components h.engine.prepared) (register_intrinsic intrinsic []).1 in
        (succeeded next.0 ≡ true)
        × (next.1 ≡ h.engine.catalog)
        × AtMostOne h.activating
        × All (λ a. a ≡ given) h.activating
        × (h.engine.active ≡ true → h.pinned ≡ some given))
  perform_calls-IsPrepared address cs short =
      after_calls address cs _ short
        (λ h i. (i.described.0, i.described.1, i.one_refresh, i.refreshing_pinned, i.active_pinned))
