-- ===== src/Instruments/Calls.antt =====
-- The calls of `Shutdown` that `ShutdownAll` makes, stated without the map and its flags.
use artest_cli.Base.{
  ◌≡◌, ◌⊎◌, refl, sym, ap, subst, ◌∙◌, inl, inr, true, false, Option, none, some, List, [], ◌∷◌,
  ◌++◌, keys, reverse, String, str_eq, eq_iff, All, All-append, arith, if◌then◌else◌,
}
use mathlib.Core.List.{reverse-cons}
use artest_cli.Diagnostics.{Diagnostic}
use artest_cli.Host.{Host}
use artest_cli.Instruments.Entries.{AreDistinct}
use artest_cli.Instruments.Lifecycle.{IsIdle, IsReady}
use artest_cli.Instruments.Manager.{
  InstrumentEntry, Entries, InstrumentManager, find, mark, answer, instrument_event, shutdown_one,
  shutdown_loop, shutdown_all,
}
use artest_cli.World.{World, instrument_shutdown, apply_effect}

keys-reverse : {A : Type 0} (es : List (String × A)) → keys (reverse es) ≡ reverse (keys es)
keys-reverse [] = refl
keys-reverse ((k, e) ∷ es) =
    rw (reverse-cons (k, e) es, reverse-cons k (keys es), sym (keys-reverse es))
      (keys-append (reverse es) ((k, e) ∷ []))
  where
    keys-append : {A : Type 0} (xs ys : List (String × A)) → keys (xs ++ ys) ≡ keys xs ++ keys ys
    keys-append [] ys = refl
    keys-append (x ∷ xs) ys = ap (λ ks. x.0 ∷ ks) (keys-append xs ys)

All-reverse : {A : Type 0} (P : A → Type 0) (xs : List A) → All P xs → All P (reverse xs)
All-reverse P [] a = tt
All-reverse P (x ∷ xs) a =
    rw (reverse-cons x xs) (All-append P (reverse xs) (x ∷ []) (All-reverse P xs a.1) (a.0, tt))

AreDistinct-snoc :
    (x : String) (xs : List String)
    → AreDistinct xs
    → All (λ j. str_eq x j ≡ false) xs
    → AreDistinct (xs ++ x ∷ [])
AreDistinct-snoc x [] d n = (tt, tt)
AreDistinct-snoc x (k ∷ ks) d n = (
  All-append _ ks (x ∷ []) d.0 (ground (arith, n.0, eq_iff x k, eq_iff k x), tt),
  AreDistinct-snoc x ks d.1 n.1,
)

AreDistinct-reverse : (xs : List String) → AreDistinct xs → AreDistinct (reverse xs)
AreDistinct-reverse [] d = tt
AreDistinct-reverse (x ∷ xs) d =
    rw (reverse-cons x xs)
      (AreDistinct-snoc x (reverse xs) (AreDistinct-reverse xs d.1) (All-reverse _ xs d.0))

module _ (h : Host) where
  open h use {Json, Device, Bench, shutdown}

  pub record Ended : Type 0 where
    pub diagnostics : List Diagnostic
    pub bench : Bench
    pub world : World

  -- The instruments that are initialised.
  unfoldable pub initialised : Entries Json Device → Entries Json Device
  initialised [] = []
  initialised ((id, e) ∷ es) =
      let rest = initialised es in if e.initialized then (id, e) ∷ rest else rest

  -- Every instrument is called in the order of the list, each on the bench that the one before it
  -- leaves.
  unfoldable pub call_each : Entries Json Device → Bench → World → Ended
  call_each [] b w = record { diagnostics = []; bench = b; world = w }
  call_each ((id, e) ∷ es) b w =
      let reply = shutdown e.device b w in
      let rest = call_each es reply.bench (
        instrument_event h instrument_shutdown id "Instrument shut down."
          (apply_effect reply.effect w)) in
      record rest {
        diagnostics =
            answer h id "INSTRUMENT_SHUTDOWN_EXCEPTION"
              "Unknown exception while shutting down the instrument." reply.outcome
            ++ rest.diagnostics;
      }

  -- What a shutdown answers, and the bench and the world after it.
  abbrev pub ended_by : List Diagnostic × InstrumentManager h → Ended
  ended_by (ds, m) = record { diagnostics = ds; bench = m.bench; world = m.world }

  -- The identifiers are those of initialised instruments of the map.
  abbrev AreOn : Entries Json Device → Entries Json Device → Type 0
  AreOn es fs = All (λ p. (find p.0 es ≡ some p.1) × (p.1.initialized ≡ true)) fs

  find-mark :
      (id k : String) (e : InstrumentEntry Json Device) (es : Entries Json Device)
      → str_eq id k ≡ false
      → find k (mark id false es) ≡ find k es
  unfolding find mark
  find-mark id k e [] n = refl
  find-mark id k e ((i, f) ∷ es) n =
      ground (arith, eq_iff i id, eq_iff i k, eq_iff id k, find-mark id k e es)

  AreOn-mark :
      (id : String) (es fs : Entries Json Device)
      → All (λ k. str_eq id k ≡ false) (keys fs)
      → AreOn es fs
      → AreOn (mark id false es) fs
  AreOn-mark id es [] d a = tt
  AreOn-mark id es ((k, e) ∷ fs) d a =
      ((find-mark id k e es d.0 ∙ a.0.0, a.0.1), AreOn-mark id es fs d.1 a.1)

  -- Nothing is called where no instrument is initialised.
  find-idle :
      (id : String) (e : InstrumentEntry Json Device) (es : Entries Json Device)
      → IsIdle es
      → find id es ≡ some e
      → e.initialized ≡ false
  unfolding find
  find-idle id e [] i f = cc
  find-idle id e ((k, g) ∷ es) i f = ground (arith, i.0, f, find-idle id e es i.1)

  -- What `Shutdown` of an initialised instrument comes to.
  abbrev called :
      String
      → InstrumentEntry Json Device
      → InstrumentManager h
      → List Diagnostic × InstrumentManager h
  called id e m =
      let reply = shutdown e.device m.bench m.world in
      (
        answer h id "INSTRUMENT_SHUTDOWN_EXCEPTION"
            "Unknown exception while shutting down the instrument." reply.outcome,
        record m {
          instruments = mark id false m.instruments;
          bench = reply.bench;
          world =
              instrument_event h instrument_shutdown id "Instrument shut down."
                (apply_effect reply.effect m.world);
        },
      )

  shutdown_one_on :
      (id : String) (e : InstrumentEntry Json Device) (m : InstrumentManager h)
      → find id m.instruments ≡ some e
      → e.initialized ≡ true
      → shutdown_one h id m ≡ called id e m
  unfolding shutdown_one
  shutdown_one_on id e m f on = at (find id m.instruments) f
    where
      at :
          (o : Option (InstrumentEntry Json Device))
          → o ≡ some e
          → (elim o as (λ x. List Diagnostic × InstrumentManager h) [
            | none ↦ ([], m)
            | some g ↦ if g.initialized then called id g m else ([], m)
          ])
            ≡ called id e m
      at none q = cc
      at (some g) q =
          let same : g ≡ e = cc in
          subst (λ x. (if x.initialized then called id x m else (([], m))) ≡ called id e m)
            (sym same)
            (subst (λ b. (if b then called id e m else ([], m)) ≡ called id e m) (sym on) refl)

  shutdown_one_idle :
      (id : String) (m : InstrumentManager h) → IsIdle m.instruments → shutdown_one h id m ≡ ([], m)
  unfolding shutdown_one
  shutdown_one_idle id m i = at (find id m.instruments) (λ e f. find-idle id e m.instruments i f)
    where
      at :
          (o : Option (InstrumentEntry Json Device))
          → ((e : InstrumentEntry Json Device) → o ≡ some e → e.initialized ≡ false)
          → (elim o as (λ x. List Diagnostic × InstrumentManager h) [
            | none ↦ ([], m)
            | some g ↦ if g.initialized then called id g m else ([], m)
          ])
            ≡ ([], m)
      at none f = refl
      at (some g) f =
          subst (λ b. (if b then called id g m else ([], m)) ≡ ([], m)) (sym (f g refl)) refl

  abbrev follow :
      List String → List Diagnostic × InstrumentManager h → List Diagnostic × InstrumentManager h
  follow ids x = (x.0 ++ (shutdown_loop h ids x.1).0, (shutdown_loop h ids x.1).1)

  shutdown_loop-cons :
      (id : String) (ids : List String) (m : InstrumentManager h)
      (x : List Diagnostic × InstrumentManager h)
      → shutdown_one h id m ≡ x
      → shutdown_loop h (id ∷ ids) m ≡ follow ids x
  unfolding shutdown_loop
  shutdown_loop-cons id ids m x e = ap (follow ids) e

  -- The loop calls exactly the instruments that it is given.
  shutdown_loop-call_each :
      (fs : Entries Json Device) (m : InstrumentManager h)
      → AreDistinct (keys fs)
      → AreOn m.instruments fs
      → ended_by (shutdown_loop h (keys fs) m) ≡ call_each fs m.bench m.world
  unfolding call_each shutdown_loop
  shutdown_loop-call_each [] m d a = refl
  shutdown_loop-call_each ((k, e) ∷ fs) m d a =
      let one = called k e m in
      ap ended_by (shutdown_loop-cons k (keys fs) m one (shutdown_one_on k e m a.0.0 a.0.1))
      ∙ ap {A = Ended} {B = Ended} (λ x. record x { diagnostics = one.0 ++ x.diagnostics })
          (shutdown_loop-call_each fs one.1 d.1 (AreOn-mark k m.instruments fs d.0 a.1))

  shutdown_loop_idle :
      (ids : List String) (m : InstrumentManager h)
      → IsIdle m.instruments
      → shutdown_loop h ids m ≡ ([], m)
  unfolding shutdown_loop
  shutdown_loop_idle [] m i = refl
  shutdown_loop_idle (id ∷ ids) m i =
      shutdown_loop-cons id ids m ([], m) (shutdown_one_idle id m i) ∙ shutdown_loop_idle ids m i

  initialised-IsReady : (es : Entries Json Device) → IsReady es → initialised es ≡ es
  unfolding initialised
  initialised-IsReady [] r = refl
  initialised-IsReady ((k, e) ∷ es) r = rw (r.0, initialised-IsReady es r.1) refl

  initialised-IsIdle : (es : Entries Json Device) → IsIdle es → initialised es ≡ []
  unfolding initialised
  initialised-IsIdle [] r = refl
  initialised-IsIdle ((k, e) ∷ es) r = rw (r.0, initialised-IsIdle es r.1) refl

  -- Either every instrument is initialised, in the order of the keys, or none is.
  abbrev pub IsSettled : InstrumentManager h → Type 0
  IsSettled m =
      (IsReady m.instruments × (m.initialization_order ≡ keys m.instruments)) ⊎ IsIdle m.instruments

  AreOn-self : (es : Entries Json Device) → AreDistinct (keys es) → IsReady es → AreOn es es
  unfolding find
  AreOn-self [] d r = tt
  AreOn-self ((k, e) ∷ es) d r =
      ((ground (arith, eq_iff k k), r.0), AreOn-cons es d.0 (AreOn-self es d.1 r.1))
    where
      AreOn-cons :
          (fs : Entries Json Device)
          → All (λ j. str_eq k j ≡ false) (keys fs)
          → AreOn es fs
          → AreOn ((k, e) ∷ es) fs
      AreOn-cons [] n a = tt
      AreOn-cons ((j, f) ∷ fs) n a = ((rw n.0 a.0.0, a.0.1), AreOn-cons fs n.1 a.1)

  -- `ShutdownAll` calls every initialised instrument, the last one first, and no other.
  pub shutdown_all-call_each :
      (m : InstrumentManager h)
      → AreDistinct (keys m.instruments)
      → IsSettled m
      → ended_by (shutdown_all h m)
        ≡ call_each (reverse (initialised m.instruments)) m.bench m.world
  unfolding shutdown_all call_each
  shutdown_all-call_each m d (inr i) =
      ap ended_by (shutdown_loop_idle (reverse m.initialization_order) m i)
      ∙ ap (λ es. call_each (reverse es) m.bench m.world) (sym (initialised-IsIdle m.instruments i))
  shutdown_all-call_each m d (inl (r, o)) =
      let order : reverse m.initialization_order ≡ keys (reverse m.instruments) =
        ap reverse o ∙ sym (keys-reverse m.instruments) in
      ap (λ ids. ended_by (shutdown_loop h ids m)) order
      ∙ shutdown_loop-call_each (reverse m.instruments) m
          (rw (keys-reverse m.instruments) (AreDistinct-reverse (keys m.instruments) d))
          (All-reverse _ m.instruments (AreOn-self m.instruments d r))
      ∙ ap (λ es. call_each (reverse es) m.bench m.world)
          (sym (initialised-IsReady m.instruments r))
