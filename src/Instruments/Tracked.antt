-- ===== src/Instruments/Tracked.antt =====
-- The initialised instruments are always among those that a shutdown will reach.
use artest_cli.Base.{◌≡◌, ◌∙◌, sym, ap, subst, inl, inr, keys, reverse, Bool-cases}
use artest_cli.Host.{Host}
use artest_cli.Diagnostics.{contains_errors}
use artest_cli.Instruments.Calls.{IsSettled}
use artest_cli.Instruments.Manager.{
  InstrumentManager, shutdown_all, initialize_loop, initialize_all,
}
use artest_cli.Instruments.Entries.{AreDistinct, clear-keys}
use artest_cli.Instruments.Lifecycle.{
  IsIdle, Covers, shutdown_loop-clear, shutdown_all-IsIdle, Covers-reverse, IsIdle-Covers,
  initialize_loop-Covers, initialize_all_atomic,
}

pub record IsTracked (h : Host) (m : InstrumentManager h) : Type 0 where
  pub distinct : AreDistinct (keys m.instruments)
  pub covered : Covers (reverse m.initialization_order) m.instruments
  pub settled : IsSettled h m

module _ (h : Host) where
  shutdown_all-keys :
      (m : InstrumentManager h)
      → AreDistinct (keys m.instruments)
      → keys (shutdown_all h m).1.instruments ≡ keys m.instruments
  unfolding shutdown_all
  shutdown_all-keys m d =
      ap keys (shutdown_loop-clear h (reverse m.initialization_order) m d)
      ∙ clear-keys _ m.instruments

  -- After `InitializeAll` every instrument is initialised, or none is.
  initialize_all-IsSettled :
      (m : InstrumentManager h)
      → AreDistinct (keys m.instruments)
      → IsIdle m.instruments
      → keys (initialize_all h m).1.instruments ≡ keys m.instruments
      → IsSettled h (initialize_all h m).1
  initialize_all-IsSettled m d idle same = elim (initialize_all_atomic h m d idle) [
    | inl (_, ready, order) ↦ inl (ready, order ∙ sym same)
    | inr (_, off, _) ↦ inr off
  ]

  initialize_all-keys :
      (m : InstrumentManager h)
      → AreDistinct (keys m.instruments)
      → IsIdle m.instruments
      → keys (initialize_all h m).1.instruments ≡ keys m.instruments
  unfolding initialize_all
  initialize_all-keys m d idle =
      let i = initialize_loop h m.instruments m.bench m.world in
      let (_, same) = initialize_loop-Covers h m.instruments m.bench m.world idle in
      let n : InstrumentManager h = record {
        instruments = i.entries;
        initialization_order = i.pushed;
        bench = i.bench;
        world = i.world;
      } in
      elim (Bool-cases (contains_errors i.diagnostics)) [
        | inr y ↦ rw y same
        | inl f ↦ rw f (shutdown_all-keys n (subst AreDistinct (sym same) d) ∙ same)
      ]

  initialize_all-covered :
      (m : InstrumentManager h)
      → AreDistinct (keys m.instruments)
      → IsIdle m.instruments
      → let n = (initialize_all h m).1 in
        AreDistinct (keys n.instruments) × Covers (reverse n.initialization_order) n.instruments
  unfolding initialize_all
  initialize_all-covered m d idle =
      let i = initialize_loop h m.instruments m.bench m.world in
      let (covered, same) = initialize_loop-Covers h m.instruments m.bench m.world idle in
      let n : InstrumentManager h = record {
        instruments = i.entries;
        initialization_order = i.pushed;
        bench = i.bench;
        world = i.world;
      } in
      let c = Covers-reverse h i.pushed i.entries covered in
      let d' : AreDistinct (keys i.entries) = subst AreDistinct (sym same) d in
      elim (Bool-cases (contains_errors i.diagnostics)) [
        | inr y ↦ rw y (d', c)
        | inl f ↦ rw f (
          subst AreDistinct (sym (shutdown_all-keys n d')) d',
          IsIdle-Covers h _ (shutdown_all h n).1.instruments (shutdown_all-IsIdle h n d' c),
        )
      ]

  pub initialize_all-IsTracked :
      (m : InstrumentManager h)
      → AreDistinct (keys m.instruments)
      → IsIdle m.instruments
      → IsTracked h (initialize_all h m).1
  initialize_all-IsTracked m d idle =
      let settled = initialize_all-IsSettled m d idle (initialize_all-keys m d idle) in
      let (distinct, covered) = initialize_all-covered m d idle in
      record { distinct = distinct; covered = covered; settled = settled }

  -- From a tracked state, a shutdown leaves no instrument initialised.
  pub shutdown_all-IsTracked :
      (m : InstrumentManager h) → IsTracked h m → IsIdle (shutdown_all h m).1.instruments
  shutdown_all-IsTracked m t = shutdown_all-IsIdle h m t.distinct t.covered
