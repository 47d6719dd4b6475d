-- ===== src/Engine/Activating.antt =====
-- The two critical sections of `Activate` keep the invariant.
use artest_cli.Base.{
  ◌≡◌, refl, sym, ap, subst, inl, inr, ◌||◌, not, Bool, true, false, ℕ, suc, Option, none, some,
  List, ◌∷◌, All, String, if◌then◌else◌, arith,
}
use artest_cli.Catalog.Components.{ComponentDescriptor}
use artest_cli.Diagnostics.{Outcome}
use artest_cli.Engine.Calls.{Handles, entry_at, begun, ended}
use artest_cli.Engine.Context.{
  Engine, Activation, in_progress, not_needed, busy, refreshing, Refreshed, refreshed, threw,
  begin_activation, has_packages,
}
use artest_cli.Engine.Scan.{fingerprint}
use artest_cli.Engine.Sound.{AtMostOne, Kept, pin, All-entry_at, erase_at-entry_at}
use artest_cli.Engine.Preparing.{no_refresh}
use artest_cli.Json.{Json}

by_test :
    {A : Type 0} (P : A → Type 0) (b : Bool) (x y : A)
    → P x
    → (b ≡ false → P y)
    → P (if b then x else y)
by_test P true x y p q = p
by_test P false x y p q = q refl

module _ (j : Json) (parse : String → Outcome j.Value) (dump : j.Value → String) (size : String → ℕ)
    (intrinsic : List (ComponentDescriptor j.Value)) where
  open j use {Value}

  -- Nothing changes, or the loading begins of what is prepared.
  abbrev IsBeginning : Engine Value → Activation × Engine Value → Type 0
  IsBeginning e (not_needed, e') = e' ≡ e
  IsBeginning e (busy r, e') = e' ≡ e
  IsBeginning e (refreshing root print, e') =
      (e.loading ≡ false)
      × ((root, print) ≡ pin j parse dump size intrinsic e)
      × (e' ≡ record e { loading = true })

  begin_activation-IsBeginning : (e : Engine Value) → IsBeginning e (begin_activation dump size e)
  unfolding begin_activation
  begin_activation-IsBeginning e =
      by_test (IsBeginning e) (e.active || not (has_packages e.prepared)) (not_needed, e)
        (if e.loading then (busy in_progress, e) else (
          refreshing e.prepared.root (fingerprint dump size e.prepared),
          record e { loading = true },
        ))
        refl
        (λ m.
          by_test (IsBeginning e) e.loading (busy in_progress, e)
            (
              refreshing e.prepared.root (fingerprint dump size e.prepared),
              record e { loading = true },
            )
            refl (λ k. (k, refl, refl)))

module _ (j : Json) (parse : String → Outcome j.Value) (dump : j.Value → String) (size : String → ℕ)
    (intrinsic : List (ComponentDescriptor j.Value)) {R : Type 0} where
  open j use {Value}

  begun-Kept :
      (n : ℕ) (h : Handles Value R) (x : Activation × Engine Value)
      → Kept j parse dump size intrinsic n h
      → IsBeginning j parse dump size intrinsic h.engine x
      → Kept j parse dump size intrinsic (suc n) (begun j parse dump size intrinsic x h)
  begun-Kept n h (not_needed, e) (c, i) same =
      subst (λ x. Kept j parse dump size intrinsic (suc n) (record h { engine = x })) (sym same)
        (omega (arith, c), i)
  begun-Kept n h (busy r, e) (c, i) same =
      subst (λ x. Kept j parse dump size intrinsic (suc n) (record h { engine = x })) (sym same)
        (omega (arith, c), i)
  begun-Kept n h (refreshing root print, e) (c, i) (free, pinned, same) =
      let still = no_refresh j parse dump size intrinsic h i free in
      subst
        (λ x.
          Kept j parse dump size intrinsic (suc n)
            (record h { engine = x; activating = (root, print) ∷ h.activating }))
        (sym same)
        (
          omega (arith, c),
          record {
            fitting = i.fitting;
            holding = i.holding;
            single = i.single;
            described = i.described;
            refreshing_pinned = (pinned, i.refreshing_pinned);
            refreshing_loading = inl refl;
            one_refresh = subst (λ bs. AtMostOne ((root, print) ∷ bs)) (sym still) tt;
            active_pinned = i.active_pinned;
          },
        )

  pub begin_activation-Kept :
      (n : ℕ) (h : Handles Value R)
      → Kept j parse dump size intrinsic n h
      → Kept j parse dump size intrinsic
          (suc n)
          (begun j parse dump size intrinsic (begin_activation dump size h.engine) h)
  begin_activation-Kept n h kept =
      begun-Kept n h _ kept (begin_activation-IsBeginning j parse dump size intrinsic h.engine)

  pub ended-Kept :
      (n k : ℕ) (r : Refreshed Value) (h : Handles Value R) (a : Option (String × String))
      → entry_at k h.activating ≡ a
      → Kept j parse dump size intrinsic n h
      → Kept j parse dump size intrinsic (suc n) (ended j parse dump size intrinsic a k r h)
  ended-Kept n k r h none e (c, i) = (omega (arith, c), i)
  ended-Kept n k r h (some a) e (c, i) =
      let still = erase_at-entry_at k h.activating a i.one_refresh e in
      let fits = All-entry_at _ k h.activating a i.refreshing_pinned e in
      elim r
        as (λ x.
          Kept j parse dump size intrinsic (suc n)
            (ended j parse dump size intrinsic (some a) k x h)) [
              | threw ↦ (
                omega (arith, c),
                record {
                  fitting = i.fitting;
                  holding = i.holding;
                  single = i.single;
                  described = i.described;
                  refreshing_pinned = subst (All _) (sym still) tt;
                  refreshing_loading = inr still;
                  one_refresh = subst AtMostOne (sym still) tt;
                  active_pinned = λ y. ap some fits;
                },
              )
              | refreshed o report ↦ (
                omega (arith, c),
                record {
                  fitting = i.fitting;
                  holding = i.holding;
                  single = i.single;
                  described = i.described;
                  refreshing_pinned = subst (All _) (sym still) tt;
                  refreshing_loading = inr still;
                  one_refresh = subst AtMostOne (sym still) tt;
                  active_pinned = λ y. ap some fits;
                },
              )
            ]
