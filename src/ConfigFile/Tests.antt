-- ===== src/ConfigFile/Tests.antt =====
-- Setting and removing features in a concrete directory.
use nameq.Base.{◌≡◌, refl, true, false, none, [], ◌∷◌, ◌++◌}
use nameq.Base.Text.{Text, Bytes, codes, Text-discrete}
use nameq.Base.Map.{Map, lookup, insert, erase}
use nameq.Base.Run.{returns, panics}
use nameq.Base.Result.{ok}
use nameq.ConfigFile.{FileCalls, written, create_config_file, set_feature, remove_feature, tmp_path}
use nameq.ConfigFile.Atomic.{IsAtomic, create_config_file-IsAtomic}

abbrev join : Text → Text → Text
join a b = a ++ (b'/' ∷ b)

abbrev all_well : FileCalls
all_well = record {
  mkdir_all = false;
  write_file = written;
  rename = false;
  remove_temp = false;
  remove_file = none;
}

abbrev tree : Map Bytes
tree = (codes "d/a", codes "0") ∷ []

set_run :
    set_feature join all_well (codes "d") (codes "a") (codes "1") tree
    ≡ returns (ok tt, (codes "d/a", codes "1") ∷ [])
unfolding set_feature Text-discrete lookup insert erase
set_run = refl

no_data : set_feature join all_well (codes "d") (codes "a") [] tree ≡ panics
unfolding set_feature
no_data = refl

removed_run : remove_feature join all_well (codes "d") (codes "a") tree ≡ (ok tt, [])
unfolding remove_feature Text-discrete erase
removed_run = refl

-- A failed rename leaves the old content.
create_config_file-IsAtomic_example :
    IsAtomic
      (join (codes "d") (codes "a"))
      (tmp_path join (codes "d") (codes "a"))
      (codes "1")
      tree
      (create_config_file join
        (record all_well { rename = true })
        (codes "d")
        (codes "a")
        (codes "1")
        tree)
create_config_file-IsAtomic_example =
    create_config_file-IsAtomic join (record all_well { rename = true }) (codes "d") (codes "a")
      (codes "1") tree
