-- ===== src/Tests/Registration.antt =====
-- A package that replaces an older one, stopped after the candidate was renamed.
use artest_cli.Base.{◌⊎◌, inl, inr, refl, none, some, [], ◌∷◌, String}
use artest_cli.Registration.Disk.{Plan, Journal, Disk}
use artest_cli.Registration.Journal.{validate_journal}
use artest_cli.Registration.Outcome.{
  LeftBehind, IsOld, IsNew, publishing, recover-IsOld, publish-IsNew,
}
use artest_cli.Registration.Recovery.{recover, promote, commit, publish, staged}
use artest_cli.Registration.Runs.{IsReturned}
use artest_cli.Registration.States.{forward, at_promoted, disk_of}

abbrev plain_hash : String → String
plain_hash s = s

abbrev token_text : Journal → String
token_text j = j.plan.token

abbrev update : Plan
update = record {
  token = "b1946ac92492d2347c6235b4d2611184";
  previous_catalog = some (("power/artest-extension.json", "aa") ∷ []);
  candidate_catalog = ("power/artest-extension.json", "bb") ∷ [];
  state = record { previous = some "{1}"; next = "{2}" };
  mapping = record { previous = none; next = "{}" };
  profile = record { previous = some "[1]"; next = "[2]" };
}

abbrev half_way : Disk
half_way = disk_of plain_hash token_text update (forward at_promoted)

stopped_there : LeftBehind half_way (publish plain_hash token_text update (staged update)).trace
unfolding publish promote commit validate_journal recover
stopped_there = inr (inr (inr (inl refl)))

recover-IsOld_example :
    IsReturned (recover plain_hash token_text half_way).answer
    × (IsOld update (recover plain_hash token_text half_way).after
        ⊎ IsNew update (recover plain_hash token_text half_way).after)
recover-IsOld_example =
    recover-IsOld plain_hash token_text update half_way (publishing half_way stopped_there)

publish-IsNew_example :
    IsReturned (publish plain_hash token_text update (staged update)).answer
    × IsNew update (publish plain_hash token_text update (staged update)).after
publish-IsNew_example = publish-IsNew plain_hash token_text update
