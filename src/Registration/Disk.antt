-- ===== src/Registration/Disk.antt =====
-- The folders and files that a registration changes, of RegistrationStore.cpp in source/ARTestDev.
-- Each is whole or absent: a folder is renamed and a file replaced in one step of the system. An
-- inventory gives the SHA-256 of each file of a folder.
use artest_cli.Base.{
  ◌≡◌, refl, Bool, true, false, ◌&&◌, Option, none, some, List, [], ◌∷◌, ◌++◌, String, str_eq,
  eq_iff, if◌then◌else◌, arith,
}
use artest_cli.Diagnostics.{Outcome, returned, raised}

abbrev pub Inventory : Type 0
Inventory = List (String × String)

abbrev pub same : Inventory → Inventory → Bool
same [] [] = true
same ((p, h) ∷ x) ((q, k) ∷ y) = str_eq p q && str_eq h k && same x y
same _ _ = false

pub same_refl : (x : Inventory) → same x x ≡ true
same_refl [] = refl
same_refl ((p, h) ∷ x) = ground (arith, eq_iff p p, eq_iff h h, same_refl x)

pub data Phase : Type 0 where
  prepared backing_up promoting writing_state writing_profile committed : Phase

-- `record`: the bytes of a file before and after. It was absent if there are none before.
pub record FileRecord : Type 0 where
  pub previous : Option String
  pub next : String

-- The journal but for its phase; the catalog was absent if it has no previous inventory.
pub record Plan : Type 0 where
  pub token : String
  pub previous_catalog : Option Inventory
  pub candidate_catalog : Inventory
  pub state : FileRecord
  pub mapping : FileRecord
  pub profile : FileRecord

pub record Journal : Type 0 where
  pub plan : Plan
  pub phase : Phase

abbrev pub at_phase : Plan → Phase → Journal
at_phase p phase = record { plan = p; phase = phase }

pub data RecoveryStep : Type 0 where
  unpromote restore files done : RecoveryStep

pub record Cursor : Type 0 where
  pub digest : String
  pub step : RecoveryStep
  pub token : String

pub record Disk : Type 0 where
  pub catalog : Option Inventory
  pub candidate : Option Inventory
  pub backup : Option Inventory
  pub state_file : Option String
  pub mapping_file : Option String
  pub profile_file : Option String
  pub journal : Option Journal
  pub cursor : Option Cursor
  pub rolled_back : Option Journal
  pub committed_journal : Option Journal
  pub done_cursor : Option Cursor

-- A run: every state of the disk that it leaves behind, in order, how it ends, and the last state.
pub record Run : Type 0 where
  pub trace : List Disk
  pub answer : Outcome (Unit {0})
  pub after : Disk

abbrev pub Action : Type 0
Action = Disk → Run

abbrev pub then_do : Outcome (Unit {0}) → List Disk → Disk → Action → Run
then_do (returned u) trace d next =
    let r = next d in record { trace = trace ++ r.trace; answer = r.answer; after = r.after }
then_do (raised what) trace d next = record { trace = trace; answer = raised what; after = d }

infixr 5 ◌>>◌
abbrev pub ◌>>◌ : Action → Action → Action
◌>>◌ first next d = let r = first d in then_do r.answer r.trace r.after next

abbrev pub finish : Action
finish d = record { trace = []; answer = returned tt; after = d }

abbrev pub refuse : String → Action
refuse text d = record { trace = []; answer = raised (some text); after = d }

-- One change of the disk.
abbrev pub change : (Disk → Disk) → Action
change f d = record { trace = f d ∷ []; answer = returned tt; after = f d }

-- `require`.
abbrev pub demand : Bool → String → Action
demand valid text = if valid then finish else refuse text

abbrev pub exists : {A : Type 0} → Option A → Bool
exists none = false
exists (some x) = true

-- The folder is there with the inventory.
abbrev pub is_folder : Option Inventory → Inventory → Bool
is_folder none x = false
is_folder (some y) x = same y x
