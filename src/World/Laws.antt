-- ===== src/World/Laws.antt =====
-- Cancellation is never withdrawn and the clock never runs back, whatever the worker does.
use artest_cli.Base.{◌≤◌, ◌≡◌, true, arith}
use artest_cli.World.Defs.{EngineEvent, EventSink, World, Effect, publish, pass, now, apply_effect}

-- What may happen to a world: a request stays, and the clock does not run back.
pub record Later (w w' : World) : Type 0 where
  pub sticky : w.requested ≡ true → w'.requested ≡ true
  pub forward : w.clock ≤ w'.clock

pub Later-refl : (w : World) → Later w w
Later-refl w = record { sticky = λ h. h; forward = omega arith }

pub Later-trans : (u v w : World) → Later u v → Later v w → Later u w
Later-trans u v w p q = record { sticky = λ h. q.sticky (p.sticky h); forward = omega arith }

pub publish-Later : (sink : EventSink) (e : EngineEvent) (w : World) → Later w (publish sink e w)
unfolding publish
publish-Later sink e w = ground arith

pub pass-Later : (w : World) → Later w (pass w)
unfolding pass
pass-Later w = ground arith

pub apply_effect-Later : (e : Effect) (w : World) → Later w (apply_effect e w)
unfolding apply_effect
apply_effect-Later e w = ground arith

pub now-Later : (w : World) → Later w (now w).1
unfolding now
now-Later w = pass-Later w
