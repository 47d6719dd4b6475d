-- ===== src/Engine/Starting.antt =====
-- `StartSessionInternal` keeps the invariant.
use artest_cli.Base.{
  ◌≡◌, ◌⊎◌, refl, sym, subst, inl, inr, ◌||◌, not, true, ℕ, suc, ◌+◌, Option, none, some, List, ◌∷◌,
  All, String, ◌==◌, arith, Bool-cases,
}
use artest_cli.Catalog.Components.{ComponentDescriptor}
use artest_cli.Diagnostics.{Outcome}
use artest_cli.Engine.Calls.{Handles, entry_at, started}
use artest_cli.Engine.Context.{Engine}
use artest_cli.Engine.Plans.{CompiledPlan}
use artest_cli.Engine.Preparing.{expired-none}
use artest_cli.Engine.Sessions.{SessionHandle, expired, start_session, new_session}
use artest_cli.Engine.Sound.{FitsEngine, AtMostOne, Kept, All-entry_at}
use artest_cli.Json.{Json}

module _ {J R : Type 0} (m : ℕ) (p : CompiledPlan J) (e : Engine J)
    (ss : List (SessionHandle J R)) where
  -- Nothing changes, or a session for the plan takes the lease that no other holds.
  abbrev IsStart : Engine J × List (SessionHandle J R) → Type 0
  IsStart x =
      (x ≡ (e, ss))
      ⊎ ((p.owner ≡ e.address)
          × (p.revision ≡ e.revision)
          × (expired ss e.run_lease ≡ true)
          × (x ≡ (record e { run_lease = some m }, new_session m p ∷ ss)))

  start_session-IsStart : IsStart ((start_session m p e ss).1, (start_session m p e ss).2)
  unfolding start_session
  start_session-IsStart = elim (Bool-cases (p.owner == e.address)) [
    | inr n ↦ rw n (inl refl)
    | inl y ↦ elim (Bool-cases (not (p.revision == e.revision) || not (expired ss e.run_lease))) [
      | inl z ↦ rw (y, z) (inl refl)
      | inr z ↦ rw (y, z) (inr (ground (arith, y), ground (arith, z), ground (arith, z), refl))
    ]
  ]

module _ (j : Json) (parse : String → Outcome j.Value) (dump : j.Value → String) (size : String → ℕ)
    (intrinsic : List (ComponentDescriptor j.Value)) {R : Type 0} where
  open j use {Value}

  abbrev IsKept : ℕ → Handles Value R → Type 0
  IsKept = Kept j parse dump size intrinsic

  -- The engine and the sessions after a plan is started.
  start_plan-Kept :
      (n m : ℕ) (h : Handles Value R) (p : CompiledPlan Value)
      (x : Engine Value × List (SessionHandle Value R))
      → FitsEngine j parse dump size intrinsic h.engine p
      → IsKept n h
      → IsStart m p h.engine h.sessions x
      → IsKept (suc n) (record h { engine = x.0; sessions = x.1; leases = h.leases + 1 })
  start_plan-Kept n m h p x f (c, i) (inl same) =
      subst (λ y. IsKept (suc n) (record h { engine = y.0; sessions = y.1; leases = h.leases + 1 }))
        (sym same)
        (
          omega (arith, c),
          record {
            fitting = i.fitting;
            holding = i.holding;
            single = i.single;
            described = i.described;
            refreshing_pinned = i.refreshing_pinned;
            refreshing_loading = i.refreshing_loading;
            one_refresh = i.one_refresh;
            active_pinned = i.active_pinned;
          },
        )
  start_plan-Kept n m h p x f (c, i) (inr (own, current, lone, same)) =
      let alone = expired-none j parse dump size intrinsic h.engine h.sessions i.holding lone in
      subst (λ y. IsKept (suc n) (record h { engine = y.0; sessions = y.1; leases = h.leases + 1 }))
        (sym same)
        (
          omega (arith, c),
          record {
            fitting = i.fitting;
            holding = ((refl, (f own).1 current), subst (All _) (sym alone) tt);
            single = subst (λ ss. AtMostOne (new_session m p ∷ ss)) (sym alone) tt;
            described = i.described;
            refreshing_pinned = i.refreshing_pinned;
            refreshing_loading = i.refreshing_loading;
            one_refresh = i.one_refresh;
            active_pinned = i.active_pinned;
          },
        )

  pub started-Kept :
      (n k : ℕ) (h : Handles Value R) (o : Option (CompiledPlan Value))
      → entry_at k h.plans ≡ o
      → IsKept n h
      → IsKept (suc n) (started j parse dump size intrinsic o h)
  started-Kept n k h none e (c, i) = (omega (arith, c), i)
  started-Kept n k h (some p) e (c, i) =
      start_plan-Kept n h.leases h p
        (
          (start_session h.leases p h.engine h.sessions).1,
          (start_session h.leases p h.engine h.sessions).2,
        )
        (All-entry_at _ k h.plans p i.fitting e) (c, i)
        (start_session-IsStart h.leases p h.engine h.sessions)
