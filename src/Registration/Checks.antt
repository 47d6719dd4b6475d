-- ===== src/Registration/Checks.antt =====
-- The checks of RegistrationStore.cpp in source/ARTestDev, in the states in which a registration can
-- be stopped.
use artest_cli.Base.{
  ◌≡◌, refl, Bool, true, false, not, ◌||◌, Option, none, some, String, str_eq, eq_iff, arith,
}
use artest_cli.Registration.Disk.{
  Inventory, same, same_refl, Phase, prepared, backing_up, promoting, writing_state,
  writing_profile, committed, FileRecord, Plan, Journal, at_phase, Cursor, finish, demand, exists,
  is_folder,
}
use artest_cli.Registration.Journal.{
  state_key, mapping_key, profile_key, fits, is_recorded, check_record, is_previous, check_topology,
  validate_journal,
}
use artest_cli.Registration.Runs.{demand-true, pass_both}
use artest_cli.Registration.States.{
  Topology, before, parked, promoted, file_at, candidate_at, backup_at, disk,
}

module _ (x : Inventory) where
  pub fits-prepared :
      (o : Option Inventory)
      → fits prepared (exists o) (exists o) false true (is_previous o o) (is_folder o x) ≡ true
  fits-prepared none = refl
  fits-prepared (some y) = rw (same_refl y) refl

  pub fits-backing_up :
      (o : Option Inventory)
      → fits backing_up (exists o) (exists o) false true (is_previous o o) (is_folder o x) ≡ true
  fits-backing_up none = refl
  fits-backing_up (some y) = rw (same_refl y) refl

  pub fits_parked :
      (o : Option Inventory)
      → fits backing_up (exists o) false (exists o) true (is_previous none o) false ≡ true
  fits_parked none = refl
  fits_parked (some y) = refl

  pub fits-promoting :
      (o : Option Inventory)
      → fits promoting (exists o) false (exists o) true (is_previous none o) false ≡ true
  fits-promoting none = refl
  fits-promoting (some y) = refl

  pub fits_promoted :
      (o : Option Inventory)
      → fits promoting (exists o) true (exists o) false (is_previous (some x) o) (same x x) ≡ true
  fits_promoted none = rw (same_refl x) refl
  fits_promoted (some y) = rw (same_refl x) refl

  pub fits-writing_state :
      (o : Option Inventory)
      → fits writing_state (exists o) true (exists o) false (is_previous (some x) o) (same x x)
        ≡ true
  fits-writing_state none = rw (same_refl x) refl
  fits-writing_state (some y) = rw (same_refl x) refl

  pub fits-writing_profile :
      (o : Option Inventory)
      → fits writing_profile (exists o) true (exists o) false (is_previous (some x) o) (same x x)
        ≡ true
  fits-writing_profile none = rw (same_refl x) refl
  fits-writing_profile (some y) = rw (same_refl x) refl

  pub fits-committed :
      (o : Option Inventory)
      → fits committed (exists o) true (exists o) false (is_previous (some x) o) (same x x) ≡ true
  fits-committed none = rw (same_refl x) refl
  fits-committed (some y) = rw (same_refl x) refl

  is_candidate :
      (t : Topology) (p : Plan)
      → (not (exists (candidate_at t p)) || is_folder (candidate_at t p) p.candidate_catalog) ≡ true
  is_candidate before p = rw (same_refl p.candidate_catalog) refl
  is_candidate parked p = rw (same_refl p.candidate_catalog) refl
  is_candidate promoted p = refl

  own_backup : (o : Option Inventory) → (not (exists o) || is_previous o o) ≡ true
  own_backup none = refl
  own_backup (some y) = rw (same_refl y) refl

  is_backup :
      (t : Topology) (p : Plan)
      → (not (exists (backup_at t p)) || is_previous (backup_at t p) p.previous_catalog) ≡ true
  is_backup before p = refl
  is_backup parked p = own_backup p.previous_catalog
  is_backup promoted p = own_backup p.previous_catalog

str_eq_refl : (s : String) → str_eq s s ≡ true
str_eq_refl s = (eq_iff s s).1 refl

module _ (hash : String → String) where
  old_is_recorded : (q : Option String) (n : String) → is_recorded hash q n q ≡ true
  old_is_recorded none n = refl
  old_is_recorded (some y) n = ground (arith, eq_iff (hash y) (hash y))

  pub file_is_recorded :
      (r : FileRecord) (b : Bool) → is_recorded hash r.previous r.next (file_at r b) ≡ true
  file_is_recorded r false = old_is_recorded r.previous r.next
  file_is_recorded r true = ground (arith, eq_iff (hash r.next) (hash r.next))

  module _ (p : Plan) (t : Topology) (b1 b2 b3 : Bool) (j : Option Journal) (c : Option Cursor)
      (phase : Phase) where
    -- A journal passes its validation where its folders pass.
    pub validate_journal-passes :
        (recovering : Bool)
        → check_topology hash recovering (at_phase p phase) (disk p t b1 b2 b3 j c)
          ≡ finish (disk p t b1 b2 b3 j c)
        → validate_journal hash (at_phase p phase) recovering (disk p t b1 b2 b3 j c)
          ≡ finish (disk p t b1 b2 b3 j c)
    unfolding validate_journal
    validate_journal-passes recovering h =
        let d = disk p t b1 b2 b3 j c in
        pass_both (check_record hash state_key p) _ d
          (demand-true _ _ d (file_is_recorded p.state b1))
          (pass_both (check_record hash mapping_key p) _ d
            (demand-true _ _ d (file_is_recorded p.mapping b2))
            (pass_both (check_record hash profile_key p) _ d
              (demand-true _ _ d (file_is_recorded p.profile b3))
              (pass_both
                (demand (not (exists d.candidate) || is_folder d.candidate p.candidate_catalog)
                  "Candidato alterado; conservado")
                _ d (demand-true _ _ d (is_candidate p.candidate_catalog t p))
                (pass_both
                  (demand (not (exists d.backup) || is_previous d.backup p.previous_catalog)
                    "Backup alterado; conservado")
                  _ d (demand-true _ _ d (is_backup p.candidate_catalog t p)) h))))
