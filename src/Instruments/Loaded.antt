-- ===== src/Instruments/Loaded.antt =====
-- What loading definitions leaves behind: the state that `InitializeAll` starts from.
use artest_cli.Base.{
  ℕ, suc, ◌≡◌, ◌⊎◌, refl, inl, inr, ◌||◌, true, false, Option, none, some, List, [], ◌∷◌, keys,
  String, ◌⧺◌, str_eq, str_lt, eq_iff, is_empty, All, arith, Bool-cases,
}
use artest_cli.Compiler.Plan.{InstrumentDefinition}
use artest_cli.Diagnostics.{Diagnostic, Outcome, returned, raised, error_at, succeeded}
use artest_cli.Host.{Host, Reply}
use artest_cli.Instruments.Entries.{contains, AreDistinct}
use artest_cli.Instruments.Lifecycle.{IsIdle}
use artest_cli.Instruments.Manager.{InstrumentEntry, Entries, InstrumentManager, shutdown_all}
use artest_cli.Instruments.Loading.{
  Loading, enter, after_reply, exception, new_entry, name_device, create_device, load_one,
  load_loop, load_definitions,
}

absent :
    (id : String) (ks : List String) → contains id ks ≡ false → All (λ k. str_eq id k ≡ false) ks
absent id [] n = tt
absent id (k ∷ ks) n = (ground arith, absent id ks (ground arith))

module _ {J D : Type 0} where
  enter-keys :
      (P : String → Type 0) (id : String) (e : InstrumentEntry J D) (es : Entries J D)
      → P id
      → All P (keys es)
      → All P (keys (enter id e es))
  enter-keys P id e [] p a = (p, tt)
  enter-keys P id e ((k, f) ∷ es) p a = elim (Bool-cases (str_lt id k)) [
    | inl y ↦ rw y (p, a)
    | inr n ↦ rw n (a.0, enter-keys P id e es p a.1)
  ]

  enter-AreDistinct :
      (id : String) (e : InstrumentEntry J D) (es : Entries J D)
      → contains id (keys es) ≡ false
      → AreDistinct (keys es)
      → AreDistinct (keys (enter id e es))
  enter-AreDistinct id e [] n d = (tt, tt)
  enter-AreDistinct id e ((k, f) ∷ es) n d = elim (Bool-cases (str_lt id k)) [
    | inl y ↦ rw y (absent id (k ∷ keys es) n, d)
    | inr z ↦ rw z (
      enter-keys (λ j. str_eq k j ≡ false) id e es (ground (arith, eq_iff id k, eq_iff k id)) d.0,
      enter-AreDistinct id e es (ground arith) d.1,
    )
  ]

  enter-IsIdle :
      (id : String) (e : InstrumentEntry J D) (es : Entries J D)
      → e.initialized ≡ false
      → IsIdle es
      → IsIdle (enter id e es)
  enter-IsIdle id e [] p a = (p, tt)
  enter-IsIdle id e ((k, f) ∷ es) p a = elim (Bool-cases (str_lt id k)) [
    | inl y ↦ rw y (p, a)
    | inr n ↦ rw n (a.0, enter-IsIdle id e es p a.1)
  ]

module _ (h : Host) (types : String → Option h.InstrumentCreator) where
  open h use {Json, Device, Bench, create_instrument, set_id}

  -- The map under construction has distinct keys and no initialised instrument.
  abbrev IsClean : Loading h types → Type 0
  IsClean l = AreDistinct (keys l.loaded) × IsIdle l.loaded

  name_device-IsClean :
      (location : String) (i : InstrumentDefinition Json) (d : Device) (l : Loading h types)
      → contains i.id (keys l.loaded) ≡ false
      → IsClean l
      → IsClean (name_device h types location i d l).1
  unfolding name_device
  name_device-IsClean location i d l n f =
      ends (set_id d i.id l.bench l.world).outcome (set_id d i.id l.bench l.world)
    where
      ends :
          {A : Type 0} (o : Outcome A) (r : Reply Bench A)
          → IsClean
              (elim o as (λ o. List Diagnostic × Loading h types) [
                | raised what ↦ (exception h types what location, after_reply h types r l)
                | returned u ↦ (
                  [],
                  record (after_reply h types r l) {
                    loaded = enter i.id (new_entry h types i d) l.loaded;
                  },
                )
              ]).1
      ends (raised what) r = f
      ends (returned u) r = (
        enter-AreDistinct i.id (new_entry h types i d) l.loaded n f.0,
        enter-IsIdle i.id (new_entry h types i d) l.loaded refl f.1,
      )

  create_device-IsClean :
      (location : String) (i : InstrumentDefinition Json) (c : h.InstrumentCreator)
      (l : Loading h types)
      → contains i.id (keys l.loaded) ≡ false
      → IsClean l
      → IsClean (create_device h types location i c l).1
  unfolding create_device
  create_device-IsClean location i c l n f =
      let r = create_instrument c l.bench l.world in
      elim r.outcome
        as (λ o.
          IsClean
            (elim o as (λ o. List Diagnostic × Loading h types) [
              | raised what ↦ (exception h types what location, after_reply h types r l)
              | returned o ↦ elim o [
                | none ↦ (
                  error_at "INSTRUMENT_TYPE_UNKNOWN" ("Unknown instrument type: " ⧺ i.device_type)
                        location
                      ∷ [],
                  after_reply h types r l,
                )
                | some d ↦ name_device h types location i d (after_reply h types r l)
              ]
            ]).1) [
              | raised what ↦ f
              | returned none ↦ f
              | returned (some d) ↦ name_device-IsClean location i d (after_reply h types r l) n f
            ]

  load_one-IsClean :
      (location : String) (i : InstrumentDefinition Json) (l : Loading h types)
      → IsClean l
      → IsClean (load_one h types location i l).1
  unfolding load_one
  load_one-IsClean location i l f =
      elim (Bool-cases (is_empty i.id || contains i.id (keys l.loaded))) [
        | inl y ↦ rw y f
        | inr n ↦ rw n (known (types i.device_type) (ground arith))
      ]
    where
      known :
          (o : Option h.InstrumentCreator)
          → contains i.id (keys l.loaded) ≡ false
          → IsClean
              (elim o as (λ o. List Diagnostic × Loading h types) [
                | none ↦ (
                  error_at "INSTRUMENT_TYPE_UNKNOWN"
                        ("Unknown instrument type: " ⧺ i.device_type)
                        location
                      ∷ [],
                  l,
                )
                | some creator ↦ create_device h types location i creator l
              ]).1
      known none n = f
      known (some c) n = create_device-IsClean location i c l n f

  load_loop-IsClean :
      (index : ℕ) (is : List (InstrumentDefinition Json)) (l : Loading h types)
      → IsClean l
      → IsClean (load_loop h types index is l).1
  unfolding load_loop
  load_loop-IsClean index [] l f = f
  load_loop-IsClean index (i ∷ is) l f =
      load_loop-IsClean (suc index) is _ (load_one-IsClean _ i l f)

  -- Loading definitions either reports an error, and then the instruments and the order of
  -- initialisation are those of before, or it succeeds, and then the identifiers of the new
  -- instruments are distinct, none of them is initialised, and the order is empty.
  pub load_definitions_atomic :
      (is : List (InstrumentDefinition Json)) (m : InstrumentManager h)
      → let (r, n) = load_definitions h types is m in
        ((succeeded r ≡ false)
          × (n.instruments ≡ m.instruments)
          × (n.initialization_order ≡ m.initialization_order))
        ⊎ ((succeeded r ≡ true)
            × AreDistinct (keys n.instruments)
            × IsIdle n.instruments
            × (n.initialization_order ≡ []))
  unfolding load_definitions shutdown_all
  load_definitions_atomic is m =
      let l : Loading h types = record { loaded = []; bench = m.bench; world = m.world } in
      let (d, i) = load_loop-IsClean 0 is l (tt, tt) in
      elim (Bool-cases (succeeded (record { diagnostics = (load_loop h types 0 is l).0 }))) [
        | inl y ↦ rw y (inr (y, d, i, refl))
        | inr n ↦ rw n (inl (n, refl, refl))
      ]
