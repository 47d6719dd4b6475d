-- ===== src/Engine/Leasing.antt =====
-- The calls on plan and session handles keep the invariant.
use artest_cli.Base.{
  ◌≡◌, sym, ap, subst, ◌∙◌, inl, inr, Bool, ℕ, suc, Option, none, some, List, [], ◌∷◌, All, String,
  ◌==◌, arith, Bool-cases,
}
use artest_cli.Catalog.Components.{ComponentDescriptor}
use artest_cli.Diagnostics.{Outcome}
use artest_cli.Engine.Calls.{Handles, with_plan}
use artest_cli.Engine.Context.{Engine}
use artest_cli.Engine.Plans.{CompiledPlan}
use artest_cli.Engine.Resolving.{IsCurrent, IsMade}
use artest_cli.Engine.Sessions.{SessionHandle, destroy_session, wait_session, wait_for}
use artest_cli.Engine.Sound.{FitsEngine, HoldsLease, AtMostOne, Kept}
use artest_cli.Json.{Json}

module _ {J R : Type 0} (P : SessionHandle J R → Type 0) where
  pub All-destroy_session :
      (l : ℕ) (ss : List (SessionHandle J R)) → All P ss → All P (destroy_session l ss)
  unfolding destroy_session
  All-destroy_session l [] a = tt
  All-destroy_session l (s ∷ ss) a = elim (Bool-cases (s.lease == l)) [
    | inl y ↦ rw y (All-destroy_session l ss a.1)
    | inr n ↦ rw n (a.0, All-destroy_session l ss a.1)
  ]

module _ {J R : Type 0} where
  pub destroy_session-AtMostOne :
      (l : ℕ) (ss : List (SessionHandle J R)) → AtMostOne ss → AtMostOne (destroy_session l ss)
  unfolding destroy_session
  destroy_session-AtMostOne l [] o = tt
  destroy_session-AtMostOne l (s ∷ []) o = elim (Bool-cases (s.lease == l)) [
    | inl y ↦ rw y tt
    | inr n ↦ rw n tt
  ]
  destroy_session-AtMostOne l (s ∷ t ∷ ts) o = cc

  -- Waiting keeps the lease and the steps.
  wait_session-steps :
      (ready : Option Bool) (final : R) (s : SessionHandle J R)
      → ((wait_session ready final s).1.lease ≡ s.lease)
        × ((wait_session ready final s).1.steps ≡ s.steps)
  unfolding wait_session
  wait_session-steps ready final s = ground arith

  wait_for-AtMostOne :
      (l : ℕ) (ready : Option Bool) (final : R) (ss : List (SessionHandle J R))
      → AtMostOne ss
      → AtMostOne (wait_for l ready final ss)
  unfolding wait_for
  wait_for-AtMostOne l ready final [] o = tt
  wait_for-AtMostOne l ready final (s ∷ []) o = elim (Bool-cases (s.lease == l)) [
    | inl y ↦ rw y tt
    | inr n ↦ rw n tt
  ]
  wait_for-AtMostOne l ready final (s ∷ t ∷ ts) o = cc

module _ (j : Json) (parse : String → Outcome j.Value) (dump : j.Value → String) (size : String → ℕ)
    (intrinsic : List (ComponentDescriptor j.Value)) where
  open j use {Value}

  -- A current plan fits.
  IsCurrent-FitsEngine :
      (e : Engine Value) (p : CompiledPlan Value)
      → IsCurrent j parse e p
      → FitsEngine j parse dump size intrinsic e p
  IsCurrent-FitsEngine e p (o, r, a) q = (omega (arith, r), λ s. a)

module _ (j : Json) (parse : String → Outcome j.Value) (dump : j.Value → String) (size : String → ℕ)
    (intrinsic : List (ComponentDescriptor j.Value)) {R : Type 0} where
  open j use {Value}

  wait_for-HoldsLease :
      (e : Engine Value) (l : ℕ) (ready : Option Bool) (final : R)
      (ss : List (SessionHandle Value R))
      → All (HoldsLease j parse dump size intrinsic e) ss
      → All (HoldsLease j parse dump size intrinsic e) (wait_for l ready final ss)
  unfolding wait_for
  wait_for-HoldsLease e l ready final [] a = tt
  wait_for-HoldsLease e l ready final (s ∷ ss) ((h, p), a) =
      let rest = wait_for-HoldsLease e l ready final ss a in
      let (k, q) = wait_session-steps ready final s in
      elim (Bool-cases (s.lease == l)) [
        | inl y ↦ rw y ((h ∙ ap some (sym k), subst (All _) (sym q) p), rest)
        | inr n ↦ rw n ((h, p), rest)
      ]

  abbrev IsKept : ℕ → Handles Value R → Type 0
  IsKept = Kept j parse dump size intrinsic

  -- With other plans that fit.
  pub with_plans-Kept :
      (n : ℕ) (h : Handles Value R) (ps : List (CompiledPlan Value))
      → All (FitsEngine j parse dump size intrinsic h.engine) ps
      → IsKept n h
      → IsKept (suc n) (record h { plans = ps })
  with_plans-Kept n h ps f (c, i) = (
    omega (arith, c),
    record {
      fitting = f;
      holding = i.holding;
      single = i.single;
      described = i.described;
      refreshing_pinned = i.refreshing_pinned;
      refreshing_loading = i.refreshing_loading;
      one_refresh = i.one_refresh;
      active_pinned = i.active_pinned;
    },
  )

  -- With other sessions that hold the lease.
  with_sessions-Kept :
      (n : ℕ) (h : Handles Value R) (ss : List (SessionHandle Value R))
      → All (HoldsLease j parse dump size intrinsic h.engine) ss
      → AtMostOne ss
      → IsKept n h
      → IsKept (suc n) (record h { sessions = ss })
  with_sessions-Kept n h ss f o (c, i) = (
    omega (arith, c),
    record {
      fitting = i.fitting;
      holding = f;
      single = o;
      described = i.described;
      refreshing_pinned = i.refreshing_pinned;
      refreshing_loading = i.refreshing_loading;
      one_refresh = i.one_refresh;
      active_pinned = i.active_pinned;
    },
  )

  pub wait_for-Kept :
      (n l : ℕ) (ready : Option Bool) (final : R) (h : Handles Value R)
      → IsKept n h
      → IsKept (suc n) (record h { sessions = wait_for l ready final h.sessions })
  wait_for-Kept n l ready final h kept =
      with_sessions-Kept n h _
        (wait_for-HoldsLease h.engine l ready final h.sessions kept.1.holding)
        (wait_for-AtMostOne l ready final h.sessions kept.1.single) kept

  pub destroy_session-Kept :
      (n l : ℕ) (h : Handles Value R)
      → IsKept n h
      → IsKept (suc n) (record h { sessions = destroy_session l h.sessions })
  destroy_session-Kept n l h kept =
      with_sessions-Kept n h _ (All-destroy_session _ l h.sessions kept.1.holding)
        (destroy_session-AtMostOne l h.sessions kept.1.single) kept

  pub with_plan-Kept :
      (n : ℕ) (h : Handles Value R) (o : Option (CompiledPlan Value))
      → IsMade j parse h.engine o
      → IsKept n h
      → IsKept (suc n) (with_plan j parse dump size intrinsic o h)
  with_plan-Kept n h none m (c, i) = (omega (arith, c), i)
  with_plan-Kept n h (some p) m (c, i) =
      with_plans-Kept n h (p ∷ h.plans)
        (IsCurrent-FitsEngine j parse dump size intrinsic h.engine p m, i.fitting) (c, i)
