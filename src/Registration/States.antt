-- ===== src/Registration/States.antt =====
-- The states of the disk in which a registration can be stopped.
use artest_cli.Base.{◌≡◌, ◌⊎◌, Bool, true, false, Option, none, some, String}
use artest_cli.Registration.Disk.{
  Inventory, Phase, prepared, backing_up, promoting, writing_state, writing_profile, committed,
  FileRecord, Plan, Journal, at_phase, RecoveryStep, unpromote, restore, files, done, Cursor, Disk,
}
use artest_cli.Registration.Recovery.{new_cursor}

-- Before, between and after the two renamings.
pub data Topology : Type 0 where
  before parked promoted : Topology

-- Where `promote` and `commit` can be stopped, by what was last written.
pub data Point : Type 0 where
  at_prepared at_backing_up at_parked at_promoting at_promoted : Point
  at_state wrote_state wrote_mapping at_profile wrote_profile at_committed : Point

-- Where a recovery can be stopped; the phase is that of the journal, and the tests say which files
-- are the new ones.
pub data Shape : Type 0 where
  forward : Point → Shape
  undoing restoring : Bool → Phase → Bool → Bool → Bool → Shape
  putting : Phase → Bool → Bool → Bool → Shape
  closing archived rolled_back : Phase → Shape
  published : Shape

abbrev pub phase_of : Point → Phase
phase_of at_prepared = prepared
phase_of at_backing_up = backing_up
phase_of at_parked = backing_up
phase_of at_promoting = promoting
phase_of at_promoted = promoting
phase_of at_state = writing_state
phase_of wrote_state = writing_state
phase_of wrote_mapping = writing_state
phase_of at_profile = writing_profile
phase_of wrote_profile = writing_profile
phase_of at_committed = committed

abbrev pub topology_of : Point → Topology
topology_of at_prepared = before
topology_of at_backing_up = before
topology_of at_parked = parked
topology_of at_promoting = parked
topology_of _ = promoted

-- Which files are written.
abbrev pub state_new : Point → Bool
state_new wrote_state = true
state_new wrote_mapping = true
state_new at_profile = true
state_new wrote_profile = true
state_new at_committed = true
state_new _ = false

abbrev pub mapping_new : Point → Bool
mapping_new wrote_mapping = true
mapping_new at_profile = true
mapping_new wrote_profile = true
mapping_new at_committed = true
mapping_new _ = false

abbrev pub profile_new : Point → Bool
profile_new wrote_profile = true
profile_new at_committed = true
profile_new _ = false

-- A file with its old or its new bytes.
abbrev pub file_at : FileRecord → Bool → Option String
file_at r false = r.previous
file_at r true = some r.next

abbrev pub catalog_at : Topology → Plan → Option Inventory
catalog_at before p = p.previous_catalog
catalog_at parked p = none
catalog_at promoted p = some p.candidate_catalog

abbrev pub candidate_at : Topology → Plan → Option Inventory
candidate_at promoted p = none
candidate_at before p = some p.candidate_catalog
candidate_at parked p = some p.candidate_catalog

abbrev pub backup_at : Topology → Plan → Option Inventory
backup_at before p = none
backup_at parked p = p.previous_catalog
backup_at promoted p = p.previous_catalog

-- The disk with its folders, its files, and the journal and the cursor, if they are there.
abbrev pub disk : Plan → Topology → Bool → Bool → Bool → Option Journal → Option Cursor → Disk
disk p t b1 b2 b3 j c = record {
  catalog = catalog_at t p;
  candidate = candidate_at t p;
  backup = backup_at t p;
  state_file = file_at p.state b1;
  mapping_file = file_at p.mapping b2;
  profile_file = file_at p.profile b3;
  journal = j;
  cursor = c;
  rolled_back = none;
  committed_journal = none;
  done_cursor = none;
}

module _ (hash : String → String) (text_of : Journal → String) (p : Plan) where
  abbrev pub cursor_at : Phase → RecoveryStep → Cursor
  cursor_at phase step = new_cursor hash text_of (at_phase p phase) step

  abbrev pub rolling : Topology → Phase → RecoveryStep → Bool → Bool → Bool → Disk
  rolling t phase step b1 b2 b3 =
      disk p t b1 b2 b3 (some (at_phase p phase)) (some (cursor_at phase step))

  abbrev pub disk_of : Shape → Disk
  disk_of (forward k) =
      disk p (topology_of k) (state_new k) (mapping_new k) (profile_new k)
        (some (at_phase p (phase_of k))) none
  disk_of (undoing false phase b1 b2 b3) = rolling promoted phase unpromote b1 b2 b3
  disk_of (undoing true phase b1 b2 b3) = rolling parked phase unpromote b1 b2 b3
  disk_of (restoring false phase b1 b2 b3) = rolling parked phase restore b1 b2 b3
  disk_of (restoring true phase b1 b2 b3) = rolling before phase restore b1 b2 b3
  disk_of (putting phase b1 b2 b3) = rolling before phase files b1 b2 b3
  disk_of (closing phase) = rolling before phase done false false false
  disk_of (archived phase) =
      record (disk p before false false false none (some (cursor_at phase done))) {
        rolled_back = some (at_phase p phase);
      }
  disk_of (rolled_back phase) = record (disk p before false false false none none) {
    rolled_back = some (at_phase p phase);
    done_cursor = some (cursor_at phase done);
  }
  disk_of published = record (disk p promoted true true true none none) {
    committed_journal = some (at_phase p committed);
  }

  -- A state in which the registration can be stopped.
  abbrev pub IsStopped : Disk → Type 0
  IsStopped d = (x : Shape) × (d ≡ disk_of x)

  -- The old registration, or the new one, and nothing is left to be done.
  abbrev pub IsSettled : Disk → Type 0
  IsSettled d = ((phase : Phase) × (d ≡ disk_of (rolled_back phase))) ⊎ (d ≡ disk_of published)
