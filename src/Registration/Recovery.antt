-- ===== src/Registration/Recovery.antt =====
-- `Transaction::recover`, `promote` and `commit` of RegistrationStore.cpp in source/ARTestDev. The
-- hash of bytes and the text of a journal are parameters.
use artest_cli.Base.{
  Bool, true, false, not, ◌&&◌, Option, none, some, String, str_eq, if◌then◌else◌,
}
use artest_cli.Diagnostics.{returned}
use artest_cli.Registration.Disk.{
  at_phase, Inventory, Phase, prepared, backing_up, promoting, writing_state, writing_profile,
  committed, Plan, Journal, RecoveryStep, unpromote, restore, files, done, Cursor, Disk, Run,
  Action, ◌>>◌, finish, change, demand, exists, is_folder,
}
use artest_cli.Registration.Journal.{
  state_key, mapping_key, profile_key, hashes_to, put_next, put_previous, validate_journal,
}

abbrev pub set_journal : Journal → Disk → Disk
set_journal j d = record d { journal = some j }

-- `phase`: the journal is saved with the phase.
abbrev pub set_phase : Phase → Plan → Action
set_phase phase p = change (set_journal (at_phase p phase))

-- `move` of a folder, to a name that is free.
abbrev pub move_to_backup : Action
move_to_backup d =
    (demand (not (exists d.backup) && exists d.catalog) "No se puede renombrar; conserve journal: "
        >> change (λ x. record x { catalog = none; backup = d.catalog }))
      d

abbrev pub move_to_catalog : Action
move_to_catalog d =
    (demand (not (exists d.catalog) && exists d.candidate)
          "No se puede renombrar; conserve journal: "
        >> change (λ x. record x { candidate = none; catalog = d.candidate }))
      d

abbrev pub move_to_candidate : Action
move_to_candidate d =
    (demand (not (exists d.candidate) && exists d.catalog)
          "No se puede renombrar; conserve journal: "
        >> change (λ x. record x { catalog = none; candidate = d.catalog }))
      d

abbrev pub move_back : Action
move_back d =
    (demand (not (exists d.catalog) && exists d.backup) "No se puede renombrar; conserve journal: "
        >> change (λ x. record x { backup = none; catalog = d.backup }))
      d

abbrev pub set_cursor : Cursor → Disk → Disk
set_cursor c d = record d { cursor = some c }

-- `advance`.
abbrev pub advance : Cursor → RecoveryStep → Action
advance c step = change (set_cursor (record c { step = step }))

abbrev pub undo_promotion : Plan → Action
undo_promotion p d =
    if exists d.catalog
    then (demand (not (exists d.candidate) && is_folder d.catalog p.candidate_catalog)
            "Rollback ambiguo"
          >> move_to_candidate)
        d
    else demand (is_folder d.candidate p.candidate_catalog) "Falta candidato durante rollback" d

abbrev pub restore_catalog : Option Inventory → Action
restore_catalog none d = demand (not (exists d.catalog)) "Catalogo ajeno durante rollback" d
restore_catalog (some x) d =
    if exists d.backup
    then (demand (not (exists d.catalog) && is_folder d.backup x) "Restauracion ambigua"
          >> move_back)
        d
    else demand (is_folder d.catalog x) "No se puede demostrar catalogo anterior" d

abbrev pub is_restored : Option Inventory → Option Inventory → Bool
is_restored none catalog = not (exists catalog)
is_restored (some x) catalog = is_folder catalog x

abbrev pub check_restored : Plan → Action
check_restored p d =
    demand (not (exists d.backup) && is_restored p.previous_catalog d.catalog)
      "Topologia de recuperacion alterada; conserve evidencia" d

abbrev pub archive_journal : Action
archive_journal = change (λ d. record d { journal = none; rolled_back = d.journal })

abbrev pub archive_cursor : Action
archive_cursor = change (λ d. record d { cursor = none; done_cursor = d.cursor })

-- The first step: whether the candidate had become the catalog.
abbrev pub first_step : Phase → Disk → RecoveryStep
first_step writing_state d = unpromote
first_step writing_profile d = unpromote
first_step promoting d = if exists d.catalog && not (exists d.candidate) then unpromote else restore
first_step _ d = restore

abbrev pub archive_commit : Action
archive_commit = change (λ d. record d { journal = none; committed_journal = d.journal })

abbrev pub is_done : RecoveryStep → Bool
is_done done = true
is_done _ = false

abbrev pub back_up : Option Inventory → Action
back_up none = finish
back_up (some x) = move_to_backup

-- A failure to archive is only a warning.
abbrev pub warned : Run → Run
warned r = record r { answer = returned tt }

-- A file is as before, by its hash.
abbrev pub is_put_back : (String → String) → Option String → Option String → Bool
is_put_back hash none file = not (exists file)
is_put_back hash (some bytes) file = hashes_to hash bytes file

module _ (hash : String → String) (text_of : Journal → String) where
  abbrev pub confirm : Plan → Action
  confirm p d =
      demand
        (is_put_back hash p.state.previous d.state_file
          && is_put_back hash p.mapping.previous d.mapping_file
          && is_put_back hash p.profile.previous d.profile_file)
        "Restauracion de seleccion no confirmada; conserve journal" d

  abbrev pub close : Plan → Action
  close p = confirm p >> archive_journal >> archive_cursor

  abbrev pub put_files_back : Plan → Cursor → Action
  put_files_back p c =
      check_restored p
      >> put_previous hash state_key p
      >> put_previous hash mapping_key p
      >> put_previous hash profile_key p
      >> advance c done
      >> close p

  abbrev pub restore_all : Plan → Cursor → Action
  restore_all p c = restore_catalog p.previous_catalog >> advance c files >> put_files_back p c

  -- The steps from that of the cursor on.
  abbrev pub roll_back : RecoveryStep → Plan → Cursor → Action
  roll_back unpromote p c = undo_promotion p >> advance c restore >> restore_all p c
  roll_back restore p c = restore_all p c
  roll_back files p c = put_files_back p c
  roll_back done p c = check_restored p >> close p

  abbrev pub new_cursor : Journal → RecoveryStep → Cursor
  new_cursor j step = record { digest = hash (text_of j); step = step; token = j.plan.token }

  abbrev pub begin_rollback : Journal → Action
  begin_rollback j d =
      let step = first_step j.phase d in
      let c = new_cursor j step in (change (set_cursor c) >> roll_back step j.plan c) d

  abbrev pub after_validation : Phase → Journal → Action
  after_validation committed j = archive_commit
  after_validation _ j = begin_rollback j

  abbrev pub owns : Cursor → Journal → Bool
  owns c j = str_eq c.digest (hash (text_of j)) && str_eq c.token j.plan.token

  abbrev pub resume : Option Cursor → Journal → Action
  resume none j = validate_journal hash j false >> after_validation j.phase j
  resume (some c) j =
      demand (owns c j) "Cursor de recuperacion corrupto; conservado"
      >> validate_journal hash j true
      >> roll_back c.step j.plan c

  -- The archive that the cursor's token names.
  abbrev pub is_archived : Cursor → Option Journal → Bool
  is_archived c none = false
  is_archived c (some j) = str_eq c.token j.plan.token && str_eq (hash (text_of j)) c.digest

  abbrev pub finish_archive : Option Cursor → Action
  finish_archive none d = finish d
  finish_archive (some c) d =
      (demand (is_done c.step) "Cursor huerfano; conserve evidencia para inspeccion"
          >> demand (is_archived c d.rolled_back) "Archivo de recuperacion alterado"
          >> archive_cursor)
        d

  abbrev pub recover_from : Option Journal → Action
  recover_from none d = finish_archive d.cursor d
  recover_from (some j) d = resume d.cursor j d

  unfoldable pub recover : Action
  recover d = recover_from d.journal d

  unfoldable pub promote : Plan → Action
  promote p =
      validate_journal hash (at_phase p prepared) false
      >> set_phase backing_up p
      >> back_up p.previous_catalog
      >> set_phase promoting p
      >> move_to_catalog
      >> set_phase writing_state p
      >> put_next hash state_key p
      >> put_next hash mapping_key p

  abbrev pub archive : Action
  archive d = warned (recover d)

  unfoldable pub commit : Plan → Action
  commit p =
      validate_journal hash (at_phase p writing_state) false
      >> set_phase writing_profile p
      >> put_next hash profile_key p
      >> set_phase committed p
      >> archive

  -- The calls of IntegrationService.cpp after the candidate was staged.
  unfoldable pub publish : Plan → Action
  publish p = promote p >> commit p

-- The disk that `stage` leaves: the candidate is copied and the journal is saved.
abbrev pub staged : Plan → Disk
staged p = record {
  catalog = p.previous_catalog;
  candidate = some p.candidate_catalog;
  backup = none;
  state_file = p.state.previous;
  mapping_file = p.mapping.previous;
  profile_file = p.profile.previous;
  journal = some (at_phase p prepared);
  cursor = none;
  rolled_back = none;
  committed_journal = none;
  done_cursor = none;
}
