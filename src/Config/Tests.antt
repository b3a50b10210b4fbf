-- ===== src/Config/Tests.antt =====
-- Scans of a concrete directory.
use nameq.Base.{
  ◌≡◌, ◌≢◌, refl, ◌⊎◌, ◌&&◌, true, false, Option, none, some, List, [], ◌∷◌, arith, ite,
  if◌then◌else◌,
}
use nameq.Base.Text.{Text, Bytes, codes, Text-discrete}
use nameq.Base.Map.{lookup, insert, erase}
use nameq.Base.Run.{returns}
use nameq.Node.{Raw, Features}
use nameq.Node.Local.{empty_node}
use nameq.Config.{
  FileInfo, ReadFile, Files, feature_re, scanned_features, Configured, scan_config, path_error,
  errno,
}
use nameq.Config.Overlay.{says, has_file}
use nameq.Config.Update.{NoNull, scan_config-Updated}

-- One file holds a value, one is empty, and one has gone since the directory was read.
abbrev contents : Text → ReadFile
contents name =
    ite (Text-discrete name (codes "a")) (record { data' = codes "2"; error = none })
      (ite (Text-discrete name (codes "b")) (record { data' = []; error = none })
        (record { data' = []; error = some (path_error (errno 2)) }))

abbrev decode : Bytes → Option Raw
decode [] = none
decode (c ∷ rest) = some (some (c ∷ rest))

abbrev files : Files
files = record { read_file = contents; trim_space = λ b. b; decode_raw = decode }

abbrev infos : List FileInfo
infos =
    record { name = codes "a"; is_dir = false }
    ∷ record { name = codes "b"; is_dir = false }
    ∷ record { name = codes "c"; is_dir = false }
    ∷ record { name = codes "d.bak"; is_dir = false }
    ∷ []

abbrev arg_features : Features
arg_features =
    (codes "a", some (codes "1"))
    ∷ (codes "b", some (codes "1"))
    ∷ (codes "c", some (codes "1"))
    ∷ []

-- The file that has gone leaves the value of the argument.
scanned_run :
    scanned_features files arg_features infos
    ≡ (codes "a", some (codes "2")) ∷ (codes "c", some (codes "1")) ∷ []
unfolding scanned_features Text-discrete insert erase
scanned_run = refl

no_match : feature_re (codes "d.bak") ≡ false
unfolding feature_re
no_match = refl

abbrev before : Configured
before = record {
  local = record {
    ip_addr = codes "10.0.0.1";
    conn = 3;
    mode = record { id = 0; secret = [] };
    node = empty_node;
  };
  notified = false;
}

files-NoNull : NoNull files
files-NoNull name e = decode_some_none (contents name).data' e
  where
    decode_some_none : (b : Bytes) → decode b ≢ some none
    decode_some_none [] e = cc
    decode_some_none (c ∷ rest) e = cc

scan_config-Updated_example :
    (c' : Configured) × (scan_config files arg_features (some infos) before ≡ returns c')
    × ((k : Text)
        → lookup k c'.local.node.features ≡ (
            if has_file k infos && feature_re k
            then says files k (lookup k arg_features)
            else lookup k arg_features))
    × ((c'.notified ≡ true) ⊎ (c' ≡ before))
unfolding lookup Text-discrete
scan_config-Updated_example =
    scan_config-Updated files arg_features infos before (refl, (refl, (refl, tt)))
      (ground arith, (ground arith, (ground arith, tt))) files-NoNull (tt, tt)
