-- ===== src/Registration/Runs.antt =====
-- Runs of the actions of a registration, step by step: what holds of every state of the disk that a
-- run leaves behind, and of the last one.
use artest_cli.Base.{◌≡◌, refl, sym, subst, Bool, true, String, List, All, All-append}
use artest_cli.Diagnostics.{Outcome, returned, raised}
use artest_cli.Registration.Disk.{Disk, Run, Action, ◌>>◌, then_do, finish, change, demand}

abbrev pub IsReturned : Outcome (Unit {0}) → Type 0
IsReturned (returned u) = Unit
IsReturned (raised what) = ⊥

-- A run that throws nothing, with `R` at every state on the way and `Q` at the end.
abbrev pub Goes : (Disk → Type 0) → (Disk → Type 0) → Run → Type 0
Goes R Q r = All R r.trace × IsReturned r.answer × Q r.after

module _ (R Q : Disk → Type 0) where
  then_do-Goes :
      (answer : Outcome (Unit {0})) (trace : List Disk) (d : Disk) (b : Action)
      → All R trace
      → IsReturned answer
      → Goes R Q (b d)
      → Goes R Q (then_do answer trace d b)
  then_do-Goes (returned u) trace d b h k (t, a, q) = (All-append R trace (b d).trace h t, a, q)
  then_do-Goes (raised w) trace d b h k g = absurd k

  pub seq-Goes :
      (a b : Action) (d : Disk) → Goes R (λ t. Goes R Q (b t)) (a d) → Goes R Q ((a >> b) d)
  seq-Goes a b d (h, k, g) = then_do-Goes (a d).answer (a d).trace (a d).after b h k g

  -- An action that changes nothing.
  pub pass-Goes :
      (a b : Action) (d : Disk) → a d ≡ finish d → Goes R Q (b d) → Goes R Q ((a >> b) d)
  pass-Goes a b d e g = subst (λ r. Goes R Q (then_do r.answer r.trace r.after b)) (sym e) g

  pub change-Goes :
      (f : Disk → Disk) (b : Action) (d : Disk)
      → R (f d)
      → Goes R Q (b (f d))
      → Goes R Q ((change f >> b) d)
  change-Goes f b d h (t, a, q) = ((h, t), a, q)

pub demand-true : (b : Bool) (text : String) (d : Disk) → b ≡ true → demand b text d ≡ finish d
demand-true b text d e = rw e refl

pub pass_both : (a b : Action) (d : Disk) → a d ≡ finish d → b d ≡ finish d → (a >> b) d ≡ finish d
pass_both a b d e k = subst (λ r. then_do r.answer r.trace r.after b ≡ finish d) (sym e) k
