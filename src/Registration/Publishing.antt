-- ===== src/Registration/Publishing.antt =====
-- `promote` and `commit` of RegistrationStore.cpp in source/ARTestDev, when nothing stops them, and
-- what becomes of a registration that is stopped anywhere and recovered.
use artest_cli.Base.{◌≡◌, refl, false, Option, none, some, String}
use artest_cli.Registration.Atomic.{passes, committed-Goes}
use artest_cli.Registration.Checks.{file_is_recorded}
use artest_cli.Registration.Disk.{
  Inventory, prepared, backing_up, promoting, writing_state, writing_profile, committed, Plan,
  Journal, at_phase, Disk, Run, Action, ◌>>◌, finish, change,
}
use artest_cli.Registration.Journal.{
  FileKey, state_key, mapping_key, profile_key, record_of, set_file, check_record, put_next,
  validate_journal,
}
use artest_cli.Registration.Recovery.{
  set_journal, set_phase, back_up, move_to_catalog, recover, warned, promote, archive, commit,
  publish,
}
use artest_cli.Registration.Restoring.{with_folders}
use artest_cli.Registration.Runs.{Goes, pass-Goes, seq-Goes, change-Goes, demand-true}
use artest_cli.Registration.States.{
  Point, at_prepared, at_backing_up, at_parked, at_promoting, at_promoted, at_state, wrote_state,
  wrote_mapping, at_profile, wrote_profile, at_committed, forward, published, disk_of, IsStopped,
}

module _ (R Q : Disk → Type 0) where
  back_up-Goes :
      (o c : Option Inventory) (d : Disk)
      → R (with_folders none c o d)
      → Q (with_folders none c o d)
      → Goes R Q (back_up o (with_folders o c none d))
  back_up-Goes none c d r q = (tt, tt, q)
  back_up-Goes (some y) c d r q = ((r, tt), tt, q)

  put_next-Goes :
      (hash : String → String) (key : FileKey) (p : Plan) (d : Disk)
      → check_record hash key p d ≡ finish d
      → R (set_file key (some (record_of key p).next) d)
      → Q (set_file key (some (record_of key p).next) d)
      → Goes R Q (put_next hash key p d)
  put_next-Goes hash key p d e r q =
      pass-Goes R Q (check_record hash key p) (change (set_file key (some (record_of key p).next)))
        d e ((r, tt), tt, q)

  warned-Goes : (r : Run) → Goes R Q r → Goes R Q (warned r)
  warned-Goes r (t, a, q) = (t, tt, q)

module _ (hash : String → String) (text_of : Journal → String) (p : Plan) where
  abbrev R : Disk → Type 0
  R = IsStopped hash text_of p

  abbrev at : Point → Disk
  at k = disk_of hash text_of p (forward k)

  abbrev Q : Disk → Type 0
  Q d = d ≡ disk_of hash text_of p published

  here : (k : Point) → R (at k)
  here k = (forward k, refl)

  commit-Goes : Goes R Q (commit hash text_of p (at wrote_mapping))
  unfolding commit
  commit-Goes =
      pass-Goes R Q (λ d. validate_journal hash (at_phase p writing_state) false d)
        (set_phase writing_profile p
          >> put_next hash profile_key p
          >> set_phase committed p
          >> archive hash text_of)
        (at wrote_mapping) (passes hash text_of p wrote_mapping)
        (change-Goes R Q (set_journal (at_phase p writing_profile))
          (put_next hash profile_key p >> set_phase committed p >> archive hash text_of)
          (at wrote_mapping) (here at_profile)
          (seq-Goes R Q (put_next hash profile_key p)
            (set_phase committed p >> archive hash text_of) (at at_profile)
            (put_next-Goes R (λ t. Goes R Q ((set_phase committed p >> archive hash text_of) t))
              hash profile_key p (at at_profile)
              (demand-true _ "Archivo cambiado por otro escritor: " (at at_profile)
                (file_is_recorded hash p.profile false))
              (here wrote_profile)
              (change-Goes R Q (set_journal (at_phase p committed)) (archive hash text_of)
                (at wrote_profile) (here at_committed)
                (warned-Goes R Q (recover hash text_of (at at_committed))
                  (committed-Goes hash text_of p))))))

  -- The second half of `promote`, from the renamed candidate on.
  files-Goes :
      (N : Disk → Type 0)
      → N (at wrote_mapping)
      → Goes R N (
          (set_phase writing_state p >> put_next hash state_key p >> put_next hash mapping_key p)
            (at at_promoted))
  files-Goes N n =
      change-Goes R N (set_journal (at_phase p writing_state))
        (put_next hash state_key p >> put_next hash mapping_key p) (at at_promoted) (here at_state)
        (seq-Goes R N (put_next hash state_key p) (put_next hash mapping_key p) (at at_state) (
          put_next-Goes R (λ t. Goes R N (put_next hash mapping_key p t)) hash state_key p
            (at at_state)
            (demand-true _ "Archivo cambiado por otro escritor: " (at at_state)
              (file_is_recorded hash p.state false))
            (here wrote_state)
            (put_next-Goes R N hash mapping_key p (at wrote_state)
              (demand-true _ "Archivo cambiado por otro escritor: " (at wrote_state)
                (file_is_recorded hash p.mapping false))
              (here wrote_mapping) n)))

  abbrev rest : Action
  rest = set_phase writing_state p >> put_next hash state_key p >> put_next hash mapping_key p

  promote-Goes :
      (N : Disk → Type 0)
      → N (at wrote_mapping)
      → Goes R N (promote hash text_of p (at at_prepared))
  unfolding promote
  promote-Goes N n =
      pass-Goes R N (λ d. validate_journal hash (at_phase p prepared) false d)
        (set_phase backing_up p
          >> back_up p.previous_catalog
          >> set_phase promoting p
          >> move_to_catalog
          >> rest)
        (at at_prepared) (passes hash text_of p at_prepared)
        (change-Goes R N (set_journal (at_phase p backing_up))
          (back_up p.previous_catalog >> set_phase promoting p >> move_to_catalog >> rest)
          (at at_prepared) (here at_backing_up)
          (seq-Goes R N (back_up p.previous_catalog)
            (set_phase promoting p >> move_to_catalog >> rest) (at at_backing_up)
            (back_up-Goes R (λ t. Goes R N ((set_phase promoting p >> move_to_catalog >> rest) t))
              p.previous_catalog (some p.candidate_catalog) (at at_backing_up) (here at_parked)
              (change-Goes R N (set_journal (at_phase p promoting)) (move_to_catalog >> rest)
                (at at_parked) (here at_promoting)
                (seq-Goes R N move_to_catalog rest (at at_promoting)
                  ((here at_promoted, tt), tt, files-Goes N n))))))

  pub publish-Goes : Goes R Q (publish hash text_of p (at at_prepared))
  unfolding publish
  publish-Goes =
      seq-Goes R Q (promote hash text_of p) (commit hash text_of p) (at at_prepared)
        (promote-Goes (λ t. Goes R Q (commit hash text_of p t)) commit-Goes)
