-- ===== src/Registration/Atomic.antt =====
-- `promote`, `commit` and `recover` of RegistrationStore.cpp in source/ARTestDev, stopped anywhere.
use artest_cli.Base.{
  ◌≡◌, inl, inr, refl, sym, subst, Bool, true, false, Option, none, some, String, str_eq, eq_iff,
}
use artest_cli.Registration.Checks.{
  validate_journal-passes, fits-prepared, fits-backing_up, fits_parked, fits-promoting,
  fits_promoted, fits-writing_state, fits-writing_profile, fits-committed,
}
use artest_cli.Registration.Disk.{
  Inventory, Phase, prepared, backing_up, promoting, writing_state, writing_profile, committed,
  FileRecord, Plan, Journal, at_phase, RecoveryStep, unpromote, restore, files, done, Disk, ◌>>◌,
  finish, change, demand,
}
use artest_cli.Registration.Journal.{check_committed, check_topology, fits_disk, validate_journal}
use artest_cli.Registration.Recovery.{
  set_cursor, archive_commit, after_validation, roll_back, new_cursor, owns, is_archived,
  archive_cursor, recover,
}
use artest_cli.Registration.Restarts.{
  put_files_back-Goes, restore_all-Goes, undo_all-Goes, close_again-Goes,
}
use artest_cli.Registration.Restoring.{and_true}
use artest_cli.Registration.Runs.{Goes, pass-Goes, change-Goes, demand-true, pass_both}
use artest_cli.Registration.States.{
  Topology, before, parked, promoted, Point, at_prepared, at_backing_up, at_parked, at_promoting,
  at_promoted, at_state, wrote_state, wrote_mapping, at_profile, wrote_profile, at_committed,
  phase_of, Shape, forward, undoing, restoring, putting, closing, archived, rolled_back, published,
  cursor_at, rolling, disk_of, IsStopped, IsSettled,
}

same_text : (s : String) → str_eq s s ≡ true
same_text s = (eq_iff s s).1 refl

module _ (hash : String → String) (text_of : Journal → String) (p : Plan) where
  abbrev R : Disk → Type 0
  R = IsStopped hash text_of p

  abbrev Q : Disk → Type 0
  Q = IsSettled hash text_of p

  abbrev at : Shape → Disk
  at x = disk_of hash text_of p x

  abbrev x : Inventory
  x = p.candidate_catalog

  abbrev o : Option Inventory
  o = p.previous_catalog

  written : (r : FileRecord) → str_eq (hash r.next) (hash r.next) ≡ true
  written r = (eq_iff (hash r.next) (hash r.next)).1 refl

  abbrev topology_text : String
  topology_text = "Topologia ambigua; conserve journal, catalogo y backups"

  committed_passes :
      check_committed hash committed p (at (forward at_committed))
      ≡ finish (at (forward at_committed))
  committed_passes =
      demand-true _ "Seleccion committed alterada" (at (forward at_committed))
        (and_true _ _ (and_true _ _ (written p.state) (written p.mapping)) (written p.profile))

  abbrev PassesAt : Point → Type 0
  PassesAt k =
      validate_journal hash (at_phase p (phase_of k)) false (at (forward k))
      ≡ finish (at (forward k))

  topology_passes :
      (k : Point)
      → fits_disk (phase_of k) p (at (forward k)) ≡ true
      → check_committed hash (phase_of k) p (at (forward k)) ≡ finish (at (forward k))
      → check_topology hash false (at_phase p (phase_of k)) (at (forward k))
        ≡ finish (at (forward k))
  topology_passes k e h =
      pass_both (demand (fits_disk (phase_of k) p (at (forward k))) topology_text)
        (check_committed hash (phase_of k) p) (at (forward k))
        (demand-true _ topology_text (at (forward k)) e) h

  pub passes : (k : Point) → PassesAt k
  passes at_prepared =
      validate_journal-passes hash p before false false false _ none prepared false
        (topology_passes at_prepared (fits-prepared x o) refl)
  passes at_backing_up =
      validate_journal-passes hash p before false false false _ none backing_up false
        (topology_passes at_backing_up (fits-backing_up x o) refl)
  passes at_parked =
      validate_journal-passes hash p parked false false false _ none backing_up false
        (topology_passes at_parked (fits_parked x o) refl)
  passes at_promoting =
      validate_journal-passes hash p parked false false false _ none promoting false
        (topology_passes at_promoting (fits-promoting x o) refl)
  passes at_promoted =
      validate_journal-passes hash p promoted false false false _ none promoting false
        (topology_passes at_promoted (fits_promoted x o) refl)
  passes at_state =
      validate_journal-passes hash p promoted false false false _ none writing_state false
        (topology_passes at_state (fits-writing_state x o) refl)
  passes wrote_state =
      validate_journal-passes hash p promoted true false false _ none writing_state false
        (topology_passes wrote_state (fits-writing_state x o) refl)
  passes wrote_mapping =
      validate_journal-passes hash p promoted true true false _ none writing_state false
        (topology_passes wrote_mapping (fits-writing_state x o) refl)
  passes at_profile =
      validate_journal-passes hash p promoted true true false _ none writing_profile false
        (topology_passes at_profile (fits-writing_profile x o) refl)
  passes wrote_profile =
      validate_journal-passes hash p promoted true true true _ none writing_profile false
        (topology_passes wrote_profile (fits-writing_profile x o) refl)
  passes at_committed =
      validate_journal-passes hash p promoted true true true _ none committed false
        (topology_passes at_committed (fits-committed x o) committed_passes)

  -- The folders and files after the journal is set aside.
  pub committed-Goes :
      Goes R (λ d. d ≡ at published) (recover hash text_of (at (forward at_committed)))
  unfolding recover
  committed-Goes =
      pass-Goes R (λ d. d ≡ at published)
        (λ d. validate_journal hash (at_phase p committed) false d) archive_commit
        (at (forward at_committed)) (passes at_committed) (((published, refl), tt), tt, refl)

  -- The rollback of a publication that was stopped before its commit.
  begun-Goes :
      (k : Point) (step : RecoveryStep)
      → R (set_cursor (new_cursor hash text_of (at_phase p (phase_of k)) step) (at (forward k)))
      → Goes R Q (
          roll_back hash text_of step p
            (cursor_at hash text_of p (phase_of k) step)
            (set_cursor (new_cursor hash text_of (at_phase p (phase_of k)) step) (at (forward k))))
      → Goes R Q (
          (change (set_cursor (cursor_at hash text_of p (phase_of k) step))
              >> roll_back hash text_of step p (cursor_at hash text_of p (phase_of k) step))
            (at (forward k)))
  begun-Goes k step r g =
      change-Goes R Q (set_cursor (cursor_at hash text_of p (phase_of k) step))
        (roll_back hash text_of step p (cursor_at hash text_of p (phase_of k) step))
        (at (forward k)) r g

  stopped-Goes :
      (k : Point)
      → Goes R Q
          (after_validation hash text_of (phase_of k) (at_phase p (phase_of k)) (at (forward k)))
  stopped-Goes at_prepared =
      begun-Goes at_prepared restore (restoring true prepared false false false, refl)
        (restore_all-Goes hash text_of p prepared restore true false false false)
  stopped-Goes at_backing_up =
      begun-Goes at_backing_up restore (restoring true backing_up false false false, refl)
        (restore_all-Goes hash text_of p backing_up restore true false false false)
  stopped-Goes at_parked =
      begun-Goes at_parked restore (restoring false backing_up false false false, refl)
        (restore_all-Goes hash text_of p backing_up restore false false false false)
  stopped-Goes at_promoting =
      begun-Goes at_promoting restore (restoring false promoting false false false, refl)
        (restore_all-Goes hash text_of p promoting restore false false false false)
  stopped-Goes at_promoted =
      begun-Goes at_promoted unpromote (undoing false promoting false false false, refl)
        (undo_all-Goes hash text_of p promoting unpromote false false false false)
  stopped-Goes at_state =
      begun-Goes at_state unpromote (undoing false writing_state false false false, refl)
        (undo_all-Goes hash text_of p writing_state unpromote false false false false)
  stopped-Goes wrote_state =
      begun-Goes wrote_state unpromote (undoing false writing_state true false false, refl)
        (undo_all-Goes hash text_of p writing_state unpromote false true false false)
  stopped-Goes wrote_mapping =
      begun-Goes wrote_mapping unpromote (undoing false writing_state true true false, refl)
        (undo_all-Goes hash text_of p writing_state unpromote false true true false)
  stopped-Goes at_profile =
      begun-Goes at_profile unpromote (undoing false writing_profile true true false, refl)
        (undo_all-Goes hash text_of p writing_profile unpromote false true true false)
  stopped-Goes wrote_profile =
      begun-Goes wrote_profile unpromote (undoing false writing_profile true true true, refl)
        (undo_all-Goes hash text_of p writing_profile unpromote false true true true)
  stopped-Goes at_committed = (((published, refl), tt), tt, inr refl)

  forward-Goes : (k : Point) → Goes R Q (recover hash text_of (at (forward k)))
  unfolding recover
  forward-Goes k =
      pass-Goes R Q (λ d. validate_journal hash (at_phase p (phase_of k)) false d)
        (after_validation hash text_of (phase_of k) (at_phase p (phase_of k))) (at (forward k))
        (passes k) (stopped-Goes k)

  -- A recovery that is taken up at a step of its cursor.
  again-Goes :
      (t : Topology) (phase : Phase) (step : RecoveryStep) (b1 b2 b3 : Bool)
      → Goes R Q (
          roll_back hash text_of step p
            (cursor_at hash text_of p phase step)
            (rolling hash text_of p t phase step b1 b2 b3))
      → Goes R Q (recover hash text_of (rolling hash text_of p t phase step b1 b2 b3))
  unfolding recover
  again-Goes t phase step b1 b2 b3 g =
      let j = at_phase p phase in
      let c = cursor_at hash text_of p phase step in
      let d = rolling hash text_of p t phase step b1 b2 b3 in
      pass-Goes R Q (demand (owns hash text_of c j) "Cursor de recuperacion corrupto; conservado")
        ((λ e. validate_journal hash j true e) >> roll_back hash text_of step p c) d
        (demand-true _ "Cursor de recuperacion corrupto; conservado" d
          (and_true _ _ (same_text (hash (text_of j))) (same_text p.token)))
        (pass-Goes R Q (λ e. validate_journal hash j true e) (roll_back hash text_of step p c) d
          (validate_journal-passes hash p t b1 b2 b3 (some j) (some c) phase true refl) g)

  orphan-Goes : (phase : Phase) → Goes R Q (recover hash text_of (at (archived phase)))
  unfolding recover
  orphan-Goes phase =
      let d = at (archived phase) in
      pass-Goes R Q (demand true "Cursor huerfano; conserve evidencia para inspeccion")
        (demand
            (is_archived hash text_of (cursor_at hash text_of p phase done)
              (some (at_phase p phase)))
            "Archivo de recuperacion alterado"
          >> archive_cursor)
        d refl
        (pass-Goes R Q
          (demand
            (is_archived hash text_of (cursor_at hash text_of p phase done)
              (some (at_phase p phase)))
            "Archivo de recuperacion alterado")
          archive_cursor d
          (demand-true _ "Archivo de recuperacion alterado" d
            (and_true _ _ (same_text p.token) (same_text (hash (text_of (at_phase p phase))))))
          (((rolled_back phase, refl), tt), tt, inl (phase, refl)))

  shape-Goes : (y : Shape) → Goes R Q (recover hash text_of (at y))
  unfolding recover
  shape-Goes (forward k) = forward-Goes k
  shape-Goes (undoing false phase b1 b2 b3) =
      again-Goes promoted phase unpromote b1 b2 b3
        (undo_all-Goes hash text_of p phase unpromote false b1 b2 b3)
  shape-Goes (undoing true phase b1 b2 b3) =
      again-Goes parked phase unpromote b1 b2 b3
        (undo_all-Goes hash text_of p phase unpromote true b1 b2 b3)
  shape-Goes (restoring false phase b1 b2 b3) =
      again-Goes parked phase restore b1 b2 b3
        (restore_all-Goes hash text_of p phase restore false b1 b2 b3)
  shape-Goes (restoring true phase b1 b2 b3) =
      again-Goes before phase restore b1 b2 b3
        (restore_all-Goes hash text_of p phase restore true b1 b2 b3)
  shape-Goes (putting phase b1 b2 b3) =
      again-Goes before phase files b1 b2 b3
        (put_files_back-Goes hash text_of p phase files b1 b2 b3)
  shape-Goes (closing phase) =
      again-Goes before phase done false false false (close_again-Goes hash text_of p phase)
  shape-Goes (archived phase) = orphan-Goes phase
  shape-Goes (rolled_back phase) = (tt, tt, inl (phase, refl))
  shape-Goes published = (tt, tt, inr refl)

  -- Recovery from wherever the registration was stopped.
  pub stopped-recover-Goes : (d : Disk) → R d → Goes R Q (recover hash text_of d)
  stopped-recover-Goes d (y, e) =
      subst (λ t. Goes R Q (recover hash text_of t)) (sym e) (shape-Goes y)
