-- ===== src/Engine/Preparing.antt =====
-- `Prepare` keeps the invariant.
use artest_cli.Base.{
  ◌≡◌, refl, sym, subst, ◌∙◌, ◌⊎◌, inl, inr, ◌||◌, not, Bool, true, false, ℕ, suc, ◌+◌, ◌≤◌, ◌<◌,
  Option, List, [], ◌∷◌, All, All-map, String, arith, Bool-cases,
}
use artest_cli.Catalog.Components.{ComponentDescriptor, Components, add}
use artest_cli.Compiler.Schemas.{HasParameters}
use artest_cli.Diagnostics.{OperationResult, Outcome, succeeded}
use artest_cli.Engine.Calls.{Handles}
use artest_cli.Engine.Context.{
  Engine, Report, register_intrinsic, prepare, revision_limit, next_revision,
}
use artest_cli.Engine.Plans.{CompiledPlan}
use artest_cli.Engine.Scan.{CatalogScan, components, is_valid}
use artest_cli.Engine.Sessions.{SessionHandle, expired}
use artest_cli.Engine.Sound.{FitsEngine, HoldsLease, IsSound, Kept}
use artest_cli.Json.{Json}

next_revision_lem : (r : ℕ) → r + 1 < revision_limit → next_revision r ≡ r + 1
next_revision_lem r h = omega (arith, h)

module _ {J : Type 0} (intrinsic : List (ComponentDescriptor J)) (scan : CatalogScan J)
    (e : Engine J) where
  abbrev next : OperationResult × Components J
  next = add (components scan) (register_intrinsic intrinsic []).1

  -- The engine keeps everything but its report, or takes the catalog of the scan.
  abbrev IsPreparation : Bool → Engine J → Type 0
  IsPreparation b e' =
      ((o : Option (Report J)) × (e' ≡ record e { last_catalog_report = o }))
      ⊎ ((e.active ≡ false)
          × (e.loading ≡ false)
          × (b ≡ true)
          × (succeeded next.0 ≡ true)
          × ((o : Option (Report J)) × (e' ≡ record e {
            last_catalog_report = o;
            catalog = next.1;
            prepared = scan;
            revision = next_revision e.revision;
          })))

  prepare-IsPreparation : (b : Bool) → IsPreparation b (prepare intrinsic b scan e).1
  unfolding prepare
  prepare-IsPreparation b = elim (Bool-cases (e.active || e.loading || not b)) [
    | inl y ↦ rw y (inl (e.last_catalog_report, refl))
    | inr n ↦ elim (Bool-cases (is_valid scan)) [
      | inr m ↦ rw (n, m) (inl (_, refl))
      | inl v ↦ elim (Bool-cases (succeeded (register_intrinsic intrinsic []).0)) [
        | inr m ↦ rw (n, v, m) (inl (_, refl))
        | inl y ↦ elim (Bool-cases (succeeded next.0)) [
          | inr m ↦ rw (n, v, y, m) (inl (_, refl))
          | inl z ↦
              rw (n, v, y, z)
                (inr (ground (arith, n), ground (arith, n), ground (arith, n), refl, (_, refl)))
        ]
      ]
    ]
  ]

module _ (j : Json) (parse : String → Outcome j.Value) (dump : j.Value → String) (size : String → ℕ)
    (intrinsic : List (ComponentDescriptor j.Value)) where
  open j use {Value}

  -- A plan of the engine is of an earlier revision than the next one.
  outdated :
      (e e' : Engine Value) (ps : List (CompiledPlan Value))
      → e'.address ≡ e.address
      → e'.revision ≡ e.revision + 1
      → All (FitsEngine j parse dump size intrinsic e) ps
      → All (FitsEngine j parse dump size intrinsic e') ps
  outdated e e' ps a r fits =
      All-map _ _
        (λ p f o. let le = (f (o ∙ a)).0 in (omega (arith, le, r), λ q. absurd p e e' le r q)) ps
        fits
    where
      absurd :
          (p : CompiledPlan Value) (e e' : Engine Value)
          → p.revision ≤ e.revision
          → e'.revision ≡ e.revision + 1
          → p.revision ≡ e'.revision
          → All (HasParameters j e'.catalog) p.steps
      absurd p e e' le r q = ground (arith, le, r, q)

module _ (j : Json) (parse : String → Outcome j.Value) (dump : j.Value → String) (size : String → ℕ)
    (intrinsic : List (ComponentDescriptor j.Value)) {R : Type 0} where
  open j use {Value}

  -- No session is there when the lease has expired.
  pub expired-none :
      (e : Engine Value) (ss : List (SessionHandle Value R))
      → All (HoldsLease j parse dump size intrinsic e) ss
      → expired ss e.run_lease ≡ true
      → ss ≡ []
  unfolding expired
  expired-none e [] a x = refl
  expired-none e (s ∷ ss) ((l, p), a) x = ground (arith, l, x)

  pub no_refresh :
      (h : Handles Value R)
      → IsSound j parse dump size intrinsic h
      → h.engine.loading ≡ false
      → h.activating ≡ []
  no_refresh h i n = elim i.refreshing_loading [ inl y ↦ cc (y, n) | inr e ↦ e ]

  -- The engine after a preparation.
  prepared-Kept :
      (n : ℕ) (scan : CatalogScan Value) (h : Handles Value R) (e : Engine Value)
      → suc n < revision_limit
      → Kept j parse dump size intrinsic n h
      → IsPreparation intrinsic scan h.engine (expired h.sessions h.engine.run_lease) e
      → Kept j parse dump size intrinsic (suc n) (record h { engine = e })
  prepared-Kept n scan h e short (c, i) (inl (o, same)) =
      subst (λ x. Kept j parse dump size intrinsic (suc n) (record h { engine = x })) (sym same)
        (
          omega (arith, c),
          record {
            fitting = i.fitting;
            holding = i.holding;
            single = i.single;
            described = i.described;
            refreshing_pinned = i.refreshing_pinned;
            refreshing_loading = i.refreshing_loading;
            one_refresh = i.one_refresh;
            active_pinned = i.active_pinned;
          },
        )
  prepared-Kept n scan h e short (c, i) (inr (idle, free, lone, good, (o, same))) =
      let alone = expired-none h.engine h.sessions i.holding lone in
      let still = no_refresh h i free in
      let later = next_revision_lem h.engine.revision (omega (arith, c, short)) in
      subst (λ x. Kept j parse dump size intrinsic (suc n) (record h { engine = x })) (sym same)
        (
          omega (arith, c, later),
          record {
            fitting =
                outdated j parse dump size intrinsic h.engine
                  (record h.engine {
                    last_catalog_report = o;
                    catalog = (next intrinsic scan h.engine).1;
                    prepared = scan;
                    revision = next_revision h.engine.revision;
                  })
                  h.plans refl later i.fitting;
            holding = subst (All _) (sym alone) tt;
            single = i.single;
            described = (good, refl);
            refreshing_pinned = subst (All _) (sym still) tt;
            refreshing_loading = i.refreshing_loading;
            one_refresh = i.one_refresh;
            active_pinned = λ y. cc (y, idle);
          },
        )

  pub prepare-Kept :
      (n : ℕ) (scan : CatalogScan Value) (h : Handles Value R)
      → suc n < revision_limit
      → Kept j parse dump size intrinsic n h
      → Kept j parse dump size intrinsic (suc n) (record h {
        engine = (prepare intrinsic (expired h.sessions h.engine.run_lease) scan h.engine).1;
      })
  prepare-Kept n scan h short kept =
      prepared-Kept n scan h _ short kept
        (prepare-IsPreparation intrinsic scan h.engine (expired h.sessions h.engine.run_lease))
