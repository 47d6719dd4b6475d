-- ===== src/Registration/Outcome.antt =====
-- RegistrationStore.cpp in source/ARTestDev: what becomes of a registration that is published, or
-- stopped anywhere and recovered.
use artest_cli.Base.{◌≡◌, ◌⊎◌, inl, inr, refl, sym, subst, none, some, String, List, [], ◌∷◌, All}
use artest_cli.Registration.Atomic.{stopped-recover-Goes}
use artest_cli.Registration.Disk.{Plan, Journal, Disk}
use artest_cli.Registration.Publishing.{publish-Goes}
use artest_cli.Registration.Recovery.{recover, publish, staged}
use artest_cli.Registration.Runs.{IsReturned}
use artest_cli.Registration.States.{at_prepared, forward, IsStopped, IsSettled}

-- The disk is among those that a run leaves behind.
abbrev pub LeftBehind : Disk → List Disk → Type 0
LeftBehind d [] = ⊥
LeftBehind d (x ∷ xs) = (d ≡ x) ⊎ LeftBehind d xs

-- Nothing is left to be done: no journal, no cursor.
abbrev pub IsClear : Disk → Type 0
IsClear d = (d.journal ≡ none) × (d.cursor ≡ none)

-- The catalog and the three files are the old ones, and there is no backup.
abbrev pub IsOld : Plan → Disk → Type 0
IsOld p d =
    (d.catalog ≡ p.previous_catalog)
    × (d.backup ≡ none)
    × (d.state_file ≡ p.state.previous)
    × (d.mapping_file ≡ p.mapping.previous)
    × (d.profile_file ≡ p.profile.previous)
    × IsClear d

-- They are the new ones, and the old catalog is kept as the backup.
abbrev pub IsNew : Plan → Disk → Type 0
IsNew p d =
    (d.catalog ≡ some p.candidate_catalog)
    × (d.backup ≡ p.previous_catalog)
    × (d.state_file ≡ some p.state.next)
    × (d.mapping_file ≡ some p.mapping.next)
    × (d.profile_file ≡ some p.profile.next)
    × IsClear d

module _ (hash : String → String) (text_of : Journal → String) (p : Plan) where
  -- A registration is staged; its publication, and every recovery, may be stopped after any change
  -- of the disk.
  pub data IsInterrupted : Disk → Type 0 where
    at_start : IsInterrupted (staged p)
    publishing :
        (d : Disk) → LeftBehind d (publish hash text_of p (staged p)).trace → IsInterrupted d
    recovering :
        (d e : Disk)
        → IsInterrupted d
        → LeftBehind e (recover hash text_of d).trace
        → IsInterrupted e

  left_behind :
      (d : Disk) (xs : List Disk)
      → All (IsStopped hash text_of p) xs
      → LeftBehind d xs
      → IsStopped hash text_of p d
  left_behind d [] h k = absurd k
  left_behind d (x ∷ xs) h (inl e) = subst (IsStopped hash text_of p) (sym e) h.0
  left_behind d (x ∷ xs) h (inr k) = left_behind d xs h.1 k

  IsInterrupted-IsStopped : (d : Disk) → IsInterrupted d → IsStopped hash text_of p d
  IsInterrupted-IsStopped _ at_start = (forward at_prepared, refl)
  IsInterrupted-IsStopped _ (publishing d k) =
      left_behind d (publish hash text_of p (staged p)).trace (publish-Goes hash text_of p).0 k
  IsInterrupted-IsStopped _ (recovering d e h k) =
      left_behind e (recover hash text_of d).trace
        (stopped-recover-Goes hash text_of p d (IsInterrupted-IsStopped d h)).0 k

  IsSettled-IsOld : (d : Disk) → IsSettled hash text_of p d → IsOld p d ⊎ IsNew p d
  IsSettled-IsOld d (inl (phase, e)) =
      inl (subst (IsOld p) (sym e) (refl, refl, refl, refl, refl, (refl, refl)))
  IsSettled-IsOld d (inr e) =
      inr (subst (IsNew p) (sym e) (refl, refl, refl, refl, refl, (refl, refl)))

  -- Wherever the publication of a package is stopped, and however often its recovery is stopped too, a
  -- recovery that runs to its end throws nothing, and leaves either the old catalog with the old files
  -- or the new catalog with the new files.
  pub recover-IsOld :
      (d : Disk)
      → IsInterrupted d
      → IsReturned (recover hash text_of d).answer
        × (IsOld p (recover hash text_of d).after ⊎ IsNew p (recover hash text_of d).after)
  recover-IsOld d h =
      let (t, a, q) = stopped-recover-Goes hash text_of p d (IsInterrupted-IsStopped d h) in
      (a, IsSettled-IsOld (recover hash text_of d).after q)

  -- A publication that nothing stops throws nothing and leaves the new catalog with the new files.
  pub publish-IsNew :
      IsReturned (publish hash text_of p (staged p)).answer
      × IsNew p (publish hash text_of p (staged p)).after
  publish-IsNew =
      let (t, a, q) = publish-Goes hash text_of p in
      (a, subst (IsNew p) (sym q) (refl, refl, refl, refl, refl, (refl, refl)))
