-- ===== src/Command.antt =====
-- cmd/nameq/command: the program `nameq`, which runs one of its commands.
pub mod Feature
pub mod Find
pub mod Serve
pub mod Watch
mod Tests
use nameq.Base.{ℕ, Option, none, some, List, [], ◌∷◌, ite}
use nameq.Base.Text.{Text, codes, Text-discrete}

-- How a command ends: it printed its usage, it returned an error, or it returned none.
pub data Exit : Type 0 where
  usage failed succeeded : Exit

-- The argument of `os.Exit`.
abbrev pub exit_code : Exit → ℕ
exit_code usage = 2
exit_code failed = 1
exit_code succeeded = 0

pub data Subcommand : Type 0 where
  feature monitor_features find_features serve : Subcommand

-- The `switch` of `Main`.
unfoldable pub subcommand_of : Text → Option Subcommand
subcommand_of subprog = ite (Text-discrete subprog (codes "feature")) (some feature) (
    ite (Text-discrete subprog (codes "monitor-features")) (some monitor_features) (
      ite (Text-discrete subprog (codes "find-features")) (some find_features)
        (ite (Text-discrete subprog (codes "serve")) (some serve) none)))

-- `Main` on what follows the program's name; the commands are given, each from its arguments to its
-- end.
unfoldable pub main_exit : (Subcommand → List Text → Exit) → List Text → ℕ
unfolding subcommand_of
main_exit run [] = 2
main_exit run (subprog ∷ args) = elim (subcommand_of subprog) [
  | none ↦ 2
  | some command ↦ exit_code (run command args)
]
