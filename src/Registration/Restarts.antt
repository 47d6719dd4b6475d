-- ===== src/Registration/Restarts.antt =====
-- `Transaction::recover` of RegistrationStore.cpp in source/ARTestDev, from every state in which a
-- registration can be stopped.
use artest_cli.Base.{◌≡◌, inl, refl, Bool, true, false, some, String}
use mathlib.Core.Bool.{true≢false}
use artest_cli.Registration.Checks.{file_is_recorded}
use artest_cli.Registration.Disk.{
  Phase, Plan, Journal, RecoveryStep, restore, files, done, Cursor, Disk, Action, ◌>>◌, exists,
}
use artest_cli.Registration.Journal.{
  FileKey, state_key, mapping_key, profile_key, record_of, file, set_file, check_record, put_back,
  put_previous, is_recorded,
}
use artest_cli.Registration.Recovery.{
  advance, set_cursor, undo_promotion, restore_catalog, check_restored, archive_journal,
  archive_cursor, confirm, close, put_files_back, restore_all,
}
use artest_cli.Registration.Restoring.{
  and_true, is_restored_self, is_put_back_self, put_back-Goes, restore_parked-Goes,
  restore_before-Goes, undo_promoted-Goes, undo_parked-Goes,
}
use artest_cli.Registration.Runs.{Goes, pass-Goes, seq-Goes, change-Goes, demand-true}
use artest_cli.Registration.States.{
  Shape, undoing, restoring, putting, closing, archived, rolled_back, file_at, cursor_at, disk_of,
  IsStopped, IsSettled,
}

module _ (hash : String → String) (text_of : Journal → String) (p : Plan) (phase : Phase) where
  abbrev R : Disk → Type 0
  R = IsStopped hash text_of p

  abbrev Q : Disk → Type 0
  Q = IsSettled hash text_of p

  abbrev at : Shape → Disk
  at x = disk_of hash text_of p x

  here : (x : Shape) → R (at x)
  here x = (x, refl)

  pub close-Goes : Goes R Q (close hash text_of p (at (closing phase)))
  close-Goes =
      let d = at (closing phase) in
      pass-Goes R Q (confirm hash text_of p) (archive_journal >> archive_cursor) d
        (demand-true _ "Restauracion de seleccion no confirmada; conserve journal" d (
          and_true _ _
            (and_true _ _ (is_put_back_self hash p.state.previous)
              (is_put_back_self hash p.mapping.previous))
            (is_put_back_self hash p.profile.previous)))
        ((here (archived phase), (here (rolled_back phase), tt)), tt, inl (phase, refl))

  -- One file is put back.
  put-Goes :
      (next : Disk → Type 0) (key : FileKey) (b1 b2 b3 : Bool) (d : Disk)
      → is_recorded hash (record_of key p).previous (record_of key p).next (file key d) ≡ true
      → R (set_file key (record_of key p).previous d)
      → next (set_file key (record_of key p).previous d)
      → (exists (file key d) ≡ false → set_file key (record_of key p).previous d ≡ d)
      → Goes R next (put_previous hash key p d)
  put-Goes next key b1 b2 b3 d h r q e =
      pass-Goes R next (check_record hash key p) (put_back hash key (record_of key p).previous) d
        (demand-true _ _ d h) (put_back-Goes R next hash key (record_of key p).previous d r q e)

  module _ (step : RecoveryStep) where
    abbrev c : Cursor
    c = cursor_at hash text_of p phase step

    advanced-Goes :
        Goes R Q ((advance c done >> close hash text_of p) (at (putting phase false false false)))
    advanced-Goes =
        change-Goes R Q (set_cursor (cursor_at hash text_of p phase done)) (close hash text_of p)
          (at (putting phase false false false)) (here (closing phase)) close-Goes

    abbrev rest3 : Action
    rest3 = advance c done >> close hash text_of p

    abbrev rest2 : Action
    rest2 = put_previous hash profile_key p >> rest3

    abbrev rest1 : Action
    rest1 = put_previous hash mapping_key p >> rest2

    same_profile :
        (b : Bool)
        → exists (file_at p.profile b) ≡ false
        → at (putting phase false false false) ≡ at (putting phase false false b)
    same_profile true e = absurd (true≢false e)
    same_profile false e = refl

    same_mapping :
        (b b3 : Bool)
        → exists (file_at p.mapping b) ≡ false
        → at (putting phase false false b3) ≡ at (putting phase false b b3)
    same_mapping true b3 e = absurd (true≢false e)
    same_mapping false b3 e = refl

    same_state :
        (b b2 b3 : Bool)
        → exists (file_at p.state b) ≡ false
        → at (putting phase false b2 b3) ≡ at (putting phase b b2 b3)
    same_state true b2 b3 e = absurd (true≢false e)
    same_state false b2 b3 e = refl

    profile-Goes : (b3 : Bool) → Goes R Q (rest2 (at (putting phase false false b3)))
    profile-Goes b3 =
        let d = at (putting phase false false b3) in
        seq-Goes R Q (put_previous hash profile_key p) rest3 d (
          put-Goes (λ t. Goes R Q (rest3 t)) profile_key false false b3 d
            (file_is_recorded hash p.profile b3) (here (putting phase false false false))
            advanced-Goes (same_profile b3))

    mapping-Goes : (b2 b3 : Bool) → Goes R Q (rest1 (at (putting phase false b2 b3)))
    mapping-Goes b2 b3 =
        let d = at (putting phase false b2 b3) in
        seq-Goes R Q (put_previous hash mapping_key p) rest2 d (
          put-Goes (λ t. Goes R Q (rest2 t)) mapping_key false b2 b3 d
            (file_is_recorded hash p.mapping b2) (here (putting phase false false b3))
            (profile-Goes b3) (same_mapping b2 b3))

    pub put_files_back-Goes :
        (b1 b2 b3 : Bool) → Goes R Q (put_files_back hash text_of p c (at (putting phase b1 b2 b3)))
    put_files_back-Goes b1 b2 b3 =
        let d = at (putting phase b1 b2 b3) in
        pass-Goes R Q (check_restored p) (put_previous hash state_key p >> rest1) d
          (demand-true _ _ d (is_restored_self p.previous_catalog))
          (seq-Goes R Q (put_previous hash state_key p) rest1 d (
            put-Goes (λ t. Goes R Q (rest1 t)) state_key b1 b2 b3 d
              (file_is_recorded hash p.state b1) (here (putting phase false b2 b3))
              (mapping-Goes b2 b3) (same_state b1 b2 b3)))

    abbrev rest4 : Action
    rest4 = advance c files >> put_files_back hash text_of p c

    files-Goes : (b1 b2 b3 : Bool) → Goes R Q (rest4 (at (restoring true phase b1 b2 b3)))
    files-Goes b1 b2 b3 =
        change-Goes R Q (set_cursor (cursor_at hash text_of p phase files))
          (put_files_back hash text_of p c) (at (restoring true phase b1 b2 b3))
          (here (putting phase b1 b2 b3)) (put_files_back-Goes b1 b2 b3)

    pub restore_all-Goes :
        (back b1 b2 b3 : Bool)
        → Goes R Q (restore_all hash text_of p c (at (restoring back phase b1 b2 b3)))
    restore_all-Goes true b1 b2 b3 =
        let d = at (restoring true phase b1 b2 b3) in
        seq-Goes R Q (restore_catalog p.previous_catalog) rest4 d (
          restore_before-Goes R (λ t. Goes R Q (rest4 t)) p.previous_catalog
            (some p.candidate_catalog) d (files-Goes b1 b2 b3))
    restore_all-Goes false b1 b2 b3 =
        let d = at (restoring false phase b1 b2 b3) in
        seq-Goes R Q (restore_catalog p.previous_catalog) rest4 d (
          restore_parked-Goes R (λ t. Goes R Q (rest4 t)) p.previous_catalog
            (some p.candidate_catalog) d (here (restoring true phase b1 b2 b3))
            (files-Goes b1 b2 b3))

    abbrev rest5 : Action
    rest5 = advance c restore >> restore_all hash text_of p c

    undone-Goes : (b1 b2 b3 : Bool) → Goes R Q (rest5 (at (undoing true phase b1 b2 b3)))
    undone-Goes b1 b2 b3 =
        change-Goes R Q (set_cursor (cursor_at hash text_of p phase restore))
          (restore_all hash text_of p c) (at (undoing true phase b1 b2 b3))
          (here (restoring false phase b1 b2 b3)) (restore_all-Goes false b1 b2 b3)

    pub undo_all-Goes :
        (moved b1 b2 b3 : Bool)
        → Goes R Q ((undo_promotion p >> rest5) (at (undoing moved phase b1 b2 b3)))
    undo_all-Goes false b1 b2 b3 =
        let d = at (undoing false phase b1 b2 b3) in
        seq-Goes R Q (undo_promotion p) rest5 d (
          undo_promoted-Goes R (λ t. Goes R Q (rest5 t)) p p.previous_catalog d
            (here (undoing true phase b1 b2 b3)) (undone-Goes b1 b2 b3))
    undo_all-Goes true b1 b2 b3 =
        let d = at (undoing true phase b1 b2 b3) in
        seq-Goes R Q (undo_promotion p) rest5 d (
          undo_parked-Goes R (λ t. Goes R Q (rest5 t)) p p.previous_catalog d
            (undone-Goes b1 b2 b3))

  -- A recovery that is taken up at its last step.
  pub close_again-Goes : Goes R Q ((check_restored p >> close hash text_of p) (at (closing phase)))
  close_again-Goes =
      let d = at (closing phase) in
      pass-Goes R Q (check_restored p) (close hash text_of p) d
        (demand-true _ _ d (is_restored_self p.previous_catalog)) close-Goes
