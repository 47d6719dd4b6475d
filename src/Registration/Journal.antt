-- ===== src/Registration/Journal.antt =====
-- `checkRecord`, `putRecord` and `validateJournal` of RegistrationStore.cpp in source/ARTestDev. A
-- journal of the model is one that reads back as it was saved; what the source checks of its
-- spelling, its paths and its hashes is not stated again.
use artest_cli.Base.{
  Bool, true, false, not, ◌&&◌, ◌||◌, Option, none, some, String, str_eq, if◌then◌else◌,
}
use artest_cli.Registration.Disk.{
  Inventory, Phase, prepared, backing_up, promoting, writing_state, writing_profile, committed,
  FileRecord, Plan, Journal, Disk, Action, ◌>>◌, finish, change, demand, exists, is_folder,
}

-- The files of the selection, in the order in which they are written.
pub data FileKey : Type 0 where
  state_key mapping_key profile_key : FileKey

abbrev pub file : FileKey → Disk → Option String
file state_key d = d.state_file
file mapping_key d = d.mapping_file
file profile_key d = d.profile_file

abbrev pub set_file : FileKey → Option String → Disk → Disk
set_file state_key x d = record d { state_file = x }
set_file mapping_key x d = record d { mapping_file = x }
set_file profile_key x d = record d { profile_file = x }

abbrev pub record_of : FileKey → Plan → FileRecord
record_of state_key p = p.state
record_of mapping_key p = p.mapping
record_of profile_key p = p.profile

-- `a != b` and `a == b` of two tests.
abbrev pub differ : Bool → Bool → Bool
differ true b = not b
differ false b = b

abbrev pub agree : Bool → Bool → Bool
agree true b = b
agree false b = not b

-- The folders that a phase allows.
abbrev pub fits : Phase → Bool → Bool → Bool → Bool → Bool → Bool → Bool
fits prepared had a b c old next = c && not b && (if had then old else not a)
fits backing_up had a b c old next =
    c && (if had then (old && not b) || (not a && b) else not a && not b)
fits promoting had a b c old next = differ c next && agree had b && (not a || next)
fits writing_state had a b c old next = not c && next && agree had b
fits writing_profile had a b c old next = not c && next && agree had b
fits committed had a b c old next = not c && next && (not b || had)

abbrev pub is_previous : Option Inventory → Option Inventory → Bool
is_previous folder none = false
is_previous folder (some x) = is_folder folder x

abbrev pub fits_disk : Phase → Plan → Disk → Bool
fits_disk phase p d =
    fits phase (exists p.previous_catalog) (exists d.catalog) (exists d.backup) (exists d.candidate)
      (is_previous d.catalog p.previous_catalog) (is_folder d.catalog p.candidate_catalog)

module _ (hash : String → String) where
  abbrev pub hashes_to : String → Option String → Bool
  hashes_to bytes none = false
  hashes_to bytes (some other) = str_eq (hash bytes) (hash other)

  -- `checkRecord`: the file is as before or as after.
  abbrev pub is_recorded : Option String → String → Option String → Bool
  is_recorded previous next none = not (exists previous)
  is_recorded previous next (some bytes) =
      str_eq (hash bytes) (hash next) || hashes_to bytes previous

  abbrev pub check_record : FileKey → Plan → Action
  check_record key p d =
      demand (is_recorded (record_of key p).previous (record_of key p).next (file key d))
        "Archivo cambiado por otro escritor: " d

  abbrev pub put_back : FileKey → Option String → Action
  put_back key none d = if exists (file key d) then change (set_file key none) d else finish d
  put_back key (some bytes) d = change (set_file key (some bytes)) d

  -- `putRecord`, with the bytes after or those before.
  abbrev pub put_next : FileKey → Plan → Action
  put_next key p = check_record key p >> change (set_file key (some (record_of key p).next))

  abbrev pub put_previous : FileKey → Plan → Action
  put_previous key p = check_record key p >> put_back key (record_of key p).previous

  -- After the commit the files are the new ones.
  abbrev pub is_written : FileKey → Plan → Disk → Bool
  is_written key p d = hashes_to (record_of key p).next (file key d)

  abbrev pub check_committed : Phase → Plan → Action
  check_committed committed p d =
      demand (is_written state_key p d && is_written mapping_key p d && is_written profile_key p d)
        "Seleccion committed alterada" d
  check_committed _ p d = finish d

  abbrev pub check_topology : Bool → Journal → Action
  check_topology true j d = finish d
  check_topology false j d =
      (demand (fits_disk j.phase j.plan d) "Topologia ambigua; conserve journal, catalogo y backups"
          >> check_committed j.phase j.plan)
        d

  -- `validateJournal`.
  unfoldable pub validate_journal : Journal → Bool → Action
  validate_journal j recovering d =
      (check_record state_key j.plan
          >> check_record mapping_key j.plan
          >> check_record profile_key j.plan
          >> demand (not (exists d.candidate) || is_folder d.candidate j.plan.candidate_catalog)
              "Candidato alterado; conservado"
          >> demand (not (exists d.backup) || is_previous d.backup j.plan.previous_catalog)
              "Backup alterado; conservado"
          >> check_topology recovering j)
        d
