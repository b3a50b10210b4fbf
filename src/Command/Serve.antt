-- ===== src/Command/Serve.antt =====
-- The command `nameq serve` of service.go, from its parsed flags on.
pub mod Given
pub mod Starts
mod Tests
use nameq.Base.{
  ℕ, ◌≡◌, ◌≢◌, refl, ap, sym, ◌∙◌, ◌⊎◌, inl, inr, ◌==◌, ◌<◌, not, ◌||◌, ◌&&◌, Bool, true, false,
  Option, none, some, List, [], ◌∷◌, arith, if◌then◌else◌, ◌↔◌,
}
use nameq.Base.Int.{ℤ, pos, negsuc}
use nameq.Base.Text.{Text, Bytes}
use nameq.Base.Result.{Result, ok, err}
use nameq.Log.{Log, LogError, Printed, error, default_init}
use nameq.Serve.Params.{Params}
use nameq.Command.{Exit, usage, failed, succeeded}

-- The variables behind the flags, after `flag.Parse`.
pub record Flags : Type 0 where
  pub params : Params
  pub secret_file : Text
  pub secret_fd : ℤ
  pub s3_cred_file : Text
  pub s3_cred_fd : ℤ
  pub syslog_arg : Text
  pub syslog_net : Text
  pub debug : Bool

-- What can be read, by file descriptor and by path; `none` is an error. A descriptor that is given for
-- the secret and for the credentials too would be read to its end by the first: here both readings
-- give the same.
pub record Sources : Type 0 where
  pub read_fd : ℕ → Option Bytes
  pub read_path : Text → Option Bytes

abbrev pub is_empty : Text → Bool
is_empty [] = true
is_empty (_ ∷ _) = false

abbrev pub is_negative : ℤ → Bool
is_negative (pos _) = false
is_negative (negsuc _) = true

abbrev pub same : Bool → Bool → Bool
same true b = b
same false b = not b

-- The test before the usage is printed.
unfoldable pub is_misused : Flags → Bool
is_misused f =
    is_empty f.params.addr
    || same (is_empty f.secret_file) (is_negative f.secret_fd)
    || (not (is_empty f.s3_cred_file) && not (is_negative f.s3_cred_fd))
    || is_empty f.params.s3_region
    || is_empty f.params.s3_bucket

-- Data that may be nil.
abbrev pub read : Option Bytes → Option (Option Bytes)
read none = none
read (some data') = some (some data')

-- `readFile`: `none` is an error, and `some none` is nil.
unfoldable pub read_file : Sources → ℤ → Text → Option (Option Bytes)
read_file s (pos fd) path = read (s.read_fd fd)
read_file s (negsuc _) [] = some none
read_file s (negsuc _) (c ∷ path) = read (s.read_path (c ∷ path))

abbrev pub or_nil : Option Bytes → Bytes
or_nil none = []
or_nil (some b) = b

-- The parameters that are given to `Serve`.
abbrev pub params_of : Flags → Option Bytes → Option Bytes → Params
params_of f secret creds = record f.params {
  send_mode = record { id = 0; secret = or_nil secret };
  s3_creds = creds;
}

-- How the command ends, and the call of `Serve`, with the loggers.
abbrev pub Started : Type 0
Started = Exit × Option (Log × Params)

module _ (sources : Sources) (serve_fails : Log → Params → Bool) where
  abbrev pub with_creds : Flags → Log → Option Bytes → Option (Option Bytes) → Started
  with_creds f log secret none = (failed, none)
  with_creds f log secret (some creds) =
      let p = params_of f secret creds in
      (if serve_fails log p then failed else succeeded, some (log, p))

  abbrev pub with_secret : Flags → Log → Option (Option Bytes) → Started
  with_secret f log none = (failed, none)
  with_secret f log (some secret) =
      with_creds f log secret (read_file sources f.s3_cred_fd f.s3_cred_file)

  abbrev pub with_log : Flags → Result LogError Log → Started
  with_log f (err _) = (failed, none)
  with_log f (ok log) = with_secret f log (read_file sources f.secret_fd f.secret_file)

  abbrev pub unless_misused : Bool → Flags → Result LogError Log → Started
  unless_misused true f log = (usage, none)
  unless_misused false f log = with_log f log

  -- The command, with the loggers of the parameters, and what `syslog.Dial` does.
  unfoldable pub serve_command : (Text → Text → Text → Bool) → Text → Log → Flags → Started
  unfolding is_misused read_file
  serve_command dial prog log f =
      unless_misused (is_misused f) f (default_init dial f.syslog_net f.syslog_arg prog f.debug log)
