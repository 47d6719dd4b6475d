-- ===== src/Instruments/Lifecycle.antt =====
-- What initialising and shutting down leave behind.
use artest_cli.Base.{
  ◌≡◌, ◌||◌, refl, sym, ap, ◌∙◌, subst, ◌⊎◌, inl, inr, true, false, not, List, [], ◌∷◌, ◌++◌, map,
  keys, reverse, String, str_eq, eq_iff, All, arith, Bool-cases, Option-cases,
}
use mathlib.Core.List.{reverse-cons}
use artest_cli.Host.{Host}
use artest_cli.Diagnostics.{
  Diagnostic, Outcome, OperationResult, returned, raised, contains_errors, contains_errors-append,
  succeeded,
}
use artest_cli.World.{World, instrument_initialized}
use artest_cli.Instruments.Manager.{
  Entries, InstrumentManager, find, shutdown_one, shutdown_loop, shutdown_all, locate, answer,
  instrument_event, initialize_one, initialize_loop, initialize_all, has_succeeded,
}
use artest_cli.Instruments.Entries.{
  contains, AreDistinct, clear, clear_nil, clear-clear, clear-keys, clear_missing, clear_idle,
  clear-mark,
}

-- No instrument is initialised.
abbrev pub IsIdle : {J D : Type 0} → Entries J D → Type 0
IsIdle es = All (λ p. p.1.initialized ≡ false) es

-- Every instrument is initialised.
abbrev pub IsReady : {J D : Type 0} → Entries J D → Type 0
IsReady es = All (λ p. p.1.initialized ≡ true) es

-- The initialised instruments are among those to be shut down.
abbrev pub Covers : {J D : Type 0} → List String → Entries J D → Type 0
Covers order es = All (λ p. p.1.initialized ≡ true → contains p.0 order ≡ true) es

module _ (h : Host) where
  open h use {Json, Device, Bench}

  shutdown_one-clear :
      (id : String) (m : InstrumentManager h)
      → AreDistinct (keys m.instruments)
      → (shutdown_one h id m).1.instruments ≡ clear (id ∷ []) m.instruments
  unfolding shutdown_one
  shutdown_one-clear id m d = elim (Option-cases (find id m.instruments)) [
    | inl n ↦ rw (n, shutdown_one) (sym (clear_missing id m.instruments n))
    | inr (e, f) ↦
        rw (f, shutdown_one)
          (elim (Bool-cases e.initialized) [
            | inl on ↦ rw on (clear-mark id e m.instruments d f)
            | inr off ↦ rw off (sym (clear_idle id e m.instruments d f off))
          ])
  ]

  -- The loop of `ShutdownAll` clears exactly the identifiers that it is given.
  pub shutdown_loop-clear :
      (ids : List String) (m : InstrumentManager h)
      → AreDistinct (keys m.instruments)
      → (shutdown_loop h ids m).1.instruments ≡ clear ids m.instruments
  unfolding shutdown_loop
  shutdown_loop-clear [] m d = sym (clear_nil m.instruments)
  shutdown_loop-clear (id ∷ ids) m d =
      let one = shutdown_one-clear id m d in
      let m1 = (shutdown_one h id m).1 in
      shutdown_loop-clear ids m1
        (subst AreDistinct (sym (ap keys one ∙ clear-keys (id ∷ []) m.instruments)) d)
      ∙ ap (clear ids) one
      ∙ clear-clear ids id m.instruments

  clear-IsIdle :
      (ids : List String) (es : Entries Json Device) → Covers ids es → IsIdle (clear ids es)
  clear-IsIdle ids [] c = tt
  clear-IsIdle ids ((k, e) ∷ es) c = (ground (arith, c.0), clear-IsIdle ids es c.1)

  pub shutdown_all-IsIdle :
      (m : InstrumentManager h)
      → AreDistinct (keys m.instruments)
      → Covers (reverse m.initialization_order) m.instruments
      → IsIdle (shutdown_all h m).1.instruments
  unfolding shutdown_all
  shutdown_all-IsIdle m d c =
      subst IsIdle (sym (shutdown_loop-clear (reverse m.initialization_order) m d))
        (clear-IsIdle _ m.instruments c)

  pub shutdown_all-order :
      (m : InstrumentManager h) → (shutdown_all h m).1.initialization_order ≡ []
  unfolding shutdown_all
  shutdown_all-order m = refl

  contains-append_left :
      (k : String) (xs ys : List String) → contains k xs ≡ true → contains k (xs ++ ys) ≡ true
  contains-append_left k [] ys e = cc
  contains-append_left k (x ∷ xs) ys e = ground (arith, contains-append_left k xs ys)

  contains-append_right :
      (k : String) (xs ys : List String) → contains k ys ≡ true → contains k (xs ++ ys) ≡ true
  contains-append_right k [] ys e = e
  contains-append_right k (x ∷ xs) ys e = ground (arith, contains-append_right k xs ys)

  contains-reverse :
      (k : String) (xs : List String) → contains k xs ≡ true → contains k (reverse xs) ≡ true
  contains-reverse k [] e = e
  contains-reverse k (x ∷ xs) e = rw (reverse-cons x xs) (elim (Bool-cases (str_eq k x)) [
    | inl y ↦ contains-append_right k (reverse xs) (x ∷ []) (rw y)
    | inr n ↦ contains-append_left k (reverse xs) (x ∷ []) (contains-reverse k xs (rw n at e))
  ])

  pub Covers-reverse :
      (order : List String) (es : Entries Json Device) → Covers order es → Covers (reverse order) es
  Covers-reverse order [] c = tt
  Covers-reverse order ((k, e) ∷ es) c =
      (λ i. contains-reverse k order (c.0 i), Covers-reverse order es c.1)

  Covers-cons :
      (k : String) (order : List String) (es : Entries Json Device)
      → Covers order es
      → Covers (k ∷ order) es
  Covers-cons k order [] c = tt
  Covers-cons k order ((j, e) ∷ es) c = (λ i. ground (arith, c.0 i), Covers-cons k order es c.1)

  pub IsIdle-Covers : (order : List String) (es : Entries Json Device) → IsIdle es → Covers order es
  IsIdle-Covers order [] i = tt
  IsIdle-Covers order ((k, e) ∷ es) i = (λ on. cc (i.0, on), IsIdle-Covers order es i.1)

  pub initialize_loop-Covers :
      (es : Entries Json Device) (b : Bench) (w : World)
      → IsIdle es
      → let i = initialize_loop h es b w in Covers i.pushed i.entries × (keys i.entries ≡ keys es)
  unfolding initialize_loop
  initialize_loop-Covers [] b w idle = (tt, refl)
  initialize_loop-Covers ((k, e) ∷ es) b w idle =
      let (outcome, b1, w1) = initialize_one h k e b w in
      let (covered, same) =
        initialize_loop-Covers es b1
          (instrument_event h instrument_initialized k "Instrument initialized." w1) idle.1 in
      elim (Bool-cases (has_succeeded h outcome)) [
        | inl y ↦ rw y (
          (λ _. ground (arith, (eq_iff k k).1 refl), Covers-cons k _ _ covered),
          ap (λ ks. k ∷ ks) same,
        )
        | inr n ↦ rw n (IsIdle-Covers [] ((k, e) ∷ es) idle, refl)
      ]

  locate-contains_errors :
      (id : String) (ds : List Diagnostic)
      → contains_errors (map (locate id) ds) ≡ contains_errors ds
  locate-contains_errors id [] = refl
  locate-contains_errors id (d ∷ ds) = ground (arith, locate-contains_errors id ds)

  answer_fails :
      (id code unknown : String) (o : Outcome OperationResult)
      → has_succeeded h o ≡ false
      → succeeded (record { diagnostics = answer h id code unknown o }) ≡ false
  answer_fails id code unknown (returned r) f = rw (locate-contains_errors id r.diagnostics) f
  answer_fails id code unknown (raised x) f = refl

  initialize_loop-IsReady :
      (es : Entries Json Device) (b : Bench) (w : World)
      → let i = initialize_loop h es b w in
        succeeded (record { diagnostics = i.diagnostics }) ≡ true
        → IsReady i.entries × (i.pushed ≡ keys es)
  unfolding initialize_loop
  initialize_loop-IsReady [] b w s = (tt, refl)
  initialize_loop-IsReady ((k, e) ∷ es) b w s =
      let (outcome, b1, w1) = initialize_one h k e b w in
      let rest =
        initialize_loop-IsReady es b1
          (instrument_event h instrument_initialized k "Instrument initialized." w1) in
      elim (Bool-cases (has_succeeded h outcome)) [
        | inl y ↦
            let (ready, same) = rest (rw (y) at s) in rw y ((refl, ready), ap (λ ks. k ∷ ks) same)
        | inr n ↦ cc (
          rw n at s,
          answer_fails k "INSTRUMENT_INITIALIZATION_EXCEPTION"
              "Unknown exception while initializing the instrument." outcome n,
        )
      ]

  -- From a state with no initialised instrument, `InitializeAll` either succeeds, and then every
  -- instrument is initialised and the order of initialisation is that of the keys; or it reports an
  -- error, and then no instrument is left initialised and the order is empty.
  pub initialize_all_atomic :
      (m : InstrumentManager h)
      → AreDistinct (keys m.instruments)
      → IsIdle m.instruments
      → let (r, n) = initialize_all h m in
        ((succeeded r ≡ true)
          × IsReady n.instruments
          × (n.initialization_order ≡ keys m.instruments))
        ⊎ ((succeeded r ≡ false) × IsIdle n.instruments × (n.initialization_order ≡ []))
  unfolding initialize_all
  initialize_all_atomic m d idle =
      let i = initialize_loop h m.instruments m.bench m.world in
      let (covered, same) = initialize_loop-Covers m.instruments m.bench m.world idle in
      let n : InstrumentManager h = record {
        instruments = i.entries;
        initialization_order = i.pushed;
        bench = i.bench;
        world = i.world;
      } in
      let down = shutdown_all h n in
      elim (Bool-cases (contains_errors i.diagnostics)) [
        | inr y ↦
            let (ready, order) = initialize_loop-IsReady m.instruments m.bench m.world (ap not y) in
            rw y (inl (ap not y, ready, order))
        | inl f ↦
            let idle' : IsIdle down.1.instruments =
              shutdown_all-IsIdle n (subst AreDistinct (sym same) d)
                (Covers-reverse i.pushed i.entries covered) in
            let failed : succeeded (record { diagnostics = i.diagnostics ++ down.0 }) ≡ false =
              ap not (
                contains_errors-append i.diagnostics down.0
                ∙ ap (λ x. x || contains_errors down.0) f) in
            rw f (inr (failed, idle', shutdown_all-order n))
      ]
