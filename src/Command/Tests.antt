-- ===== src/Command/Tests.antt =====
-- The commands on concrete arguments.
use nameq.Base.{Option, List, ◌≡◌, refl, ◌⊎◌, inl, ◌++◌, true, false, none, some, [], ◌∷◌, arith}
use nameq.Base.Text.{Text, Bytes, codes, Text-discrete}
use nameq.Base.Map.{Map, lookup, insert, erase}
use nameq.Base.Run.{Run, returns}
use nameq.Node.Local.{empty_node}
use nameq.Config.{FileInfo, Files, feature_re, Configured, scan_config}
use nameq.Config.Update.{NoNull}
use nameq.Config.Overlay.{has_file}
use nameq.ConfigFile.{FileCalls, written, tmp_path, set_feature}
use nameq.ConfigFile.Scanned.{files_of, Lists}
use nameq.Command.{Exit, usage, failed, succeeded, main_exit}
use nameq.Command.Feature.{Json, feature_command, document_of}
use nameq.Command.Feature.Scanned.{feature_command-scanned}
use nameq.Demux.{Feature}
use nameq.Find.{
  Choice, feature, booted, by_default, is_wanted, add_host, remove_host, take_feature, find_loop,
  array, print_entries,
}
use nameq.Command.Find.{Flags, infinite, find_command}
use nameq.Command.Find.Ends.{Ends, find_command-Ends}

abbrev join : Text → Text → Text
join a b = a ++ (b'/' ∷ b)

abbrev json : Json
json = record { unmarshal = λ b. some b; marshal_indent = λ b. some b }

abbrev all_well : FileCalls
all_well = record {
  mkdir_all = false;
  write_file = written;
  rename = false;
  remove_temp = false;
  remove_file = none;
}

abbrev after : Map Bytes
after = (codes "d/a", codes "1\n") ∷ []

set_run :
    feature_command join json all_well (codes "d") false none (codes "a" ∷ codes "1" ∷ []) []
    ≡ returns (succeeded, after)
unfolding feature_command document_of set_feature Text-discrete lookup insert erase
set_run = refl

no_value :
    feature_command join json all_well (codes "d") true none (codes "a" ∷ codes "1" ∷ []) after
    ≡ returns (usage, after)
unfolding feature_command
no_value = refl

unknown_command : main_exit (λ command args. succeeded) (codes "features" ∷ []) ≡ 2
unfolding main_exit Text-discrete
unknown_command = refl

failed_command : main_exit (λ command args. failed) (codes "serve" ∷ []) ≡ 1
unfolding main_exit Text-discrete
failed_command = refl

abbrev base : Files
base = record {
  read_file = λ name. record { data' = []; error = none };
  trim_space = λ b. b;
  decode_raw = λ b. some (some b);
}

abbrev info : FileInfo
info = record { name = codes "a"; is_dir = false }

before-Lists : Lists join (codes "d") [] []
unfolding has_file lookup
before-Lists k h = refl

after-Lists : Lists join (codes "d") after (info ∷ [])
unfolding has_file lookup
after-Lists k h = ground arith

-- A service that has no features yet.
abbrev configured : Configured
configured = record {
  local = record {
    ip_addr = codes "10.0.0.1";
    conn = 3;
    mode = record { id = 7; secret = [] };
    node = empty_node;
  };
  notified = false;
}

no_nulls : NoNull (files_of join (codes "d") base [])
no_nulls name e = ground arith

set_stdin :
    feature_command join json all_well (codes "d") false (some (codes "1")) (codes "a" ∷ []) []
    ≡ returns (succeeded, after)
unfolding feature_command document_of set_feature Text-discrete lookup insert erase
set_stdin = refl

feature_command-scanned_example :
    (old : Configured) × (new : Configured) × (scan_config
        (files_of join (codes "d") base [])
        []
        (some [])
        configured
      ≡ returns old)
    × (scan_config (files_of join (codes "d") base after) [] (some (info ∷ [])) configured
        ≡ returns new)
    × (lookup (codes "a") new.local.node.features ≡ some (some (codes "1\n")))
    × ((k : Text)
        → (join (codes "d") (codes "a") ≡ join (codes "d") k)
          ⊎ (tmp_path join (codes "d") (codes "a") ≡ join (codes "d") k)
          ⊎ (lookup k new.local.node.features ≡ lookup k old.local.node.features))
unfolding feature_re document_of Text-discrete
feature_command-scanned_example =
    feature_command-scanned join json all_well (codes "d") base [] configured configured none
      (codes "a" ∷ codes "1" ∷ []) (codes "a") (codes "1") (codes "1\n") (codes "1\n") [] after []
      (info ∷ []) (inl refl) set_run refl refl refl refl (λ e. ground arith) before-Lists
      after-Lists no_nulls (tt, tt) (tt, tt) (tt, tt)

abbrev of_host : Text → Option Bytes → Feature
of_host host data' = record { name = codes "foo"; host = host; data' = data' }

abbrev choices : List Choice
choices =
    feature (of_host (codes "a") (some []))
    ∷ booted
    ∷ feature (of_host (codes "b") (some []))
    ∷ feature (of_host (codes "a") none)
    ∷ by_default
    ∷ []

abbrev flags : Flags
flags = record { state_dir = codes "s"; timeout = infinite; single = false }

abbrev printed : Run (Exit × List Text)
printed = returns (succeeded, codes "b" ∷ [])

-- The host a is gone again.
found_b :
    find_command (λ t. none) (λ dir. false) (λ b. b) flags (codes "foo" ∷ []) choices ≡ some printed
unfolding find_command find_loop take_feature is_wanted add_host remove_host print_entries array
    Text-discrete lookup insert erase
found_b = refl

find_command-Ends_example :
    (e : Exit) × (lines : List Text) × (printed ≡ returns (e, lines))
    × Ends (λ t. none) (λ dir. false) (λ b. b) flags (codes "foo" ∷ []) choices e lines
find_command-Ends_example =
    find_command-Ends (λ t. none) (λ dir. false) (λ b. b) flags (codes "foo" ∷ []) choices printed
      tt found_b

-- Of two names, the last feature of any of them decides: the host a still has foo when bar is removed,
-- and is printed no more.
either_name :
    find_command
      (λ t. none)
      (λ dir. false)
      (λ b. b)
      flags
      (codes "foo" ∷ codes "bar" ∷ [])
      (feature (of_host (codes "a") (some []))
        ∷ feature (of_host (codes "b") (some []))
        ∷ booted
        ∷ feature (record { name = codes "bar"; host = codes "a"; data' = none })
        ∷ by_default
        ∷ [])
    ≡ some printed
unfolding find_command find_loop take_feature is_wanted add_host remove_host print_entries array
    Text-discrete lookup insert erase
either_name = refl
