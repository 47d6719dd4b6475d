-- ===== src/Registration/Restoring.antt =====
-- The steps of `Transaction::recover` of RegistrationStore.cpp in source/ARTestDev, one by one.
use artest_cli.Base.{
  if◌then◌else◌, ◌≡◌, refl, sym, subst, Bool, true, false, not, ◌&&◌, Option, none, some, String,
  eq_iff,
}
use artest_cli.Registration.Disk.{
  Inventory, same_refl, Plan, Disk, Action, finish, change, demand, exists, is_folder,
}
use artest_cli.Registration.Journal.{FileKey, file, set_file, put_back}
use artest_cli.Registration.Recovery.{
  undo_promotion, restore_catalog, is_restored, is_put_back, move_back, move_to_candidate,
}
use artest_cli.Registration.Runs.{Goes, pass-Goes, demand-true}

pub and_true : (a b : Bool) → a ≡ true → b ≡ true → (a && b) ≡ true
and_true a b ha hb = rw (ha, hb) refl

pub is_restored_self : (o : Option Inventory) → is_restored o o ≡ true
is_restored_self none = refl
is_restored_self (some y) = same_refl y

pub is_put_back_self : (hash : String → String) (q : Option String) → is_put_back hash q q ≡ true
is_put_back_self hash none = refl
is_put_back_self hash (some y) = (eq_iff (hash y) (hash y)).1 refl

-- The disk with other folders.
abbrev pub with_folders : Option Inventory → Option Inventory → Option Inventory → Disk → Disk
with_folders a c b d = record d { catalog = a; candidate = c; backup = b }

module _ (R Q : Disk → Type 0) where
  pub finish-Goes : (a : Action) (d : Disk) → a d ≡ finish d → Q d → Goes R Q (a d)
  finish-Goes a d e q = subst (Goes R Q) (sym e) (tt, tt, q)

  pub put_back-Goes :
      (hash : String → String) (key : FileKey) (q : Option String) (d : Disk)
      → R (set_file key q d)
      → Q (set_file key q d)
      → (exists (file key d) ≡ false → set_file key q d ≡ d)
      → Goes R Q (put_back hash key q d)
  put_back-Goes hash key none d r q e = remove (exists (file key d)) e
    where
      remove :
          (b : Bool)
          → (b ≡ false → set_file key none d ≡ d)
          → Goes R Q ((if b then change (set_file key none) d else finish d))
      remove true h = ((r, tt), tt, q)
      remove false h = (tt, tt, subst Q (h refl) q)
  put_back-Goes hash key (some y) d r q e = ((r, tt), tt, q)

  -- The catalog is taken back from the backup, or is there already.
  pub restore_parked-Goes :
      (o c : Option Inventory) (d : Disk)
      → R (with_folders o c none d)
      → Q (with_folders o c none d)
      → Goes R Q (restore_catalog o (with_folders none c o d))
  restore_parked-Goes none c d r q = (tt, tt, q)
  restore_parked-Goes (some y) c d r q =
      let e = with_folders none c (some y) d in
      pass-Goes R Q (demand (not (exists e.catalog) && is_folder e.backup y) "Restauracion ambigua")
        move_back e (demand-true _ _ e (same_refl y)) ((r, tt), tt, q)

  pub restore_before-Goes :
      (o c : Option Inventory) (d : Disk)
      → Q (with_folders o c none d)
      → Goes R Q (restore_catalog o (with_folders o c none d))
  restore_before-Goes none c d q = (tt, tt, q)
  restore_before-Goes (some y) c d q =
      let e = with_folders (some y) c none d in
      finish-Goes (demand (is_folder (some y) y) "No se puede demostrar catalogo anterior") e
        (demand-true _ _ e (same_refl y)) q

  pub undo_promoted-Goes :
      (p : Plan) (b : Option Inventory) (d : Disk)
      → R (with_folders none (some p.candidate_catalog) b d)
      → Q (with_folders none (some p.candidate_catalog) b d)
      → Goes R Q (undo_promotion p (with_folders (some p.candidate_catalog) none b d))
  undo_promoted-Goes p b d r q =
      let e = with_folders (some p.candidate_catalog) none b d in
      pass-Goes R Q
        (demand (not (exists e.candidate) && is_folder e.catalog p.candidate_catalog)
          "Rollback ambiguo")
        move_to_candidate e (demand-true _ _ e (same_refl p.candidate_catalog)) ((r, tt), tt, q)

  pub undo_parked-Goes :
      (p : Plan) (b : Option Inventory) (d : Disk)
      → Q (with_folders none (some p.candidate_catalog) b d)
      → Goes R Q (undo_promotion p (with_folders none (some p.candidate_catalog) b d))
  undo_parked-Goes p b d q =
      let e = with_folders none (some p.candidate_catalog) b d in
      finish-Goes
        (demand (is_folder e.candidate p.candidate_catalog) "Falta candidato durante rollback") e
        (demand-true _ _ e (same_refl p.candidate_catalog)) q
