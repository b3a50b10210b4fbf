-- ===== src/Command/Serve/Tests.antt =====
-- The command `nameq serve` on concrete flags.
use nameq.Base.{ℕ, ◌≡◌, refl, ◌∷◌, [], Option, none, some, Bool, true, false, ite, ◌↔◌}
use nameq.Base.Int.{pos, negsuc}
use nameq.Base.Text.{Text, Bytes, codes, Text-discrete}
use nameq.Base.Result.{ok}
use nameq.Node.{LocalNode}
use nameq.Node.Local.{empty_node}
use nameq.Packet.RoundTrip.{Delivered}
use nameq.Log.{Log, default_init, init_loggers, stderr}
use nameq.Serve.Params.{Params, default_params, guess_addr, modes_of, fill_defaults}
use nameq.Command.{usage, failed, succeeded}
use nameq.Command.Serve.{Flags, Sources, params_of, is_misused, read_file, serve_command}
use nameq.Command.Serve.Starts.{IsStarted, serve_command-IsStarted, serve_command-Delivered}
use nameq.Samples.{codec, codec-IsLawful}
use nameq.Samples.Net.{net}

abbrev read_path : Text → Option Bytes
read_path path = ite (Text-discrete path (codes "key")) (some (codes "secret")) none

abbrev read_fd : ℕ → Option Bytes
read_fd fd = some (codes "secret")

abbrev sources : Sources
sources = record { read_fd = read_fd; read_path = read_path }

abbrev dial : Text → Text → Text → Bool
dial network addr tag = true

abbrev serve_fails : Log → Params → Bool
serve_fails log p = false

abbrev no_log : Log
no_log = record { error_logger = none; info_logger = none; debug_logger = none }

abbrev by_path : Flags
by_path = record {
  params = record (default_params (codes "10.0.0.1") (record { id = 0; secret = [] })) {
    s3_region = codes "r";
    s3_bucket = codes "b";
  };
  secret_file = codes "key";
  secret_fd = negsuc 0;
  s3_cred_file = [];
  s3_cred_fd = negsuc 0;
  syslog_arg = [];
  syslog_net = [];
  debug = false;
}

abbrev by_fd : Flags
by_fd = record by_path { secret_file = []; secret_fd = pos 3 }

abbrev started : Flags → Params
started f = params_of f (some (codes "secret")) none

abbrev log_on : Log
log_on = init_loggers stderr false no_log

by_path_starts :
    serve_command sources serve_fails dial (codes "nameq") no_log by_path
    ≡ (succeeded, some (log_on, started by_path))
unfolding serve_command is_misused read_file Text-discrete
by_path_starts = refl

two_secrets :
    serve_command sources serve_fails dial
      (codes "nameq")
      no_log
      (record by_fd { secret_file = codes "key" })
    ≡ (usage, none)
unfolding serve_command is_misused
two_secrets = refl

no_syslog :
    serve_command sources serve_fails dial
      (codes "nameq")
      no_log
      (record by_fd { syslog_arg = codes "a" })
    ≡ (failed, none)
unfolding serve_command is_misused
no_syslog = refl

second_addr :
    guess_addr net
      (λ ip. ip)
      (some (none ∷ some (codes "127.0.0.1") ∷ some (codes "10.0.0.1") ∷ []))
    ≡ codes "10.0.0.1"
unfolding net Text-discrete
second_addr = refl

serve_command-IsStarted_example :
    ((serve_command sources serve_fails dial (codes "nameq") no_log by_path).1
      ≡ some (log_on, started by_path))
    ↔ ((default_init dial [] [] (codes "nameq") false no_log ≡ ok log_on)
        × IsStarted sources by_path (started by_path))
serve_command-IsStarted_example =
    serve_command-IsStarted sources serve_fails dial (codes "nameq") no_log log_on by_path
      (started by_path)

abbrev local : LocalNode
local = record {
  ip_addr = codes "10.0.0.1";
  conn = 3;
  mode = record { id = 0; secret = codes "secret" };
  node = record empty_node { features = (codes "a", none) ∷ [] };
}

serve_command-Delivered_example :
    Delivered codec (modes_of (fill_defaults (started by_fd)).receive_modes) local (pos 5)
unfolding serve_command is_misused read_file Text-discrete codec
serve_command-Delivered_example =
    serve_command-Delivered codec codec-IsLawful sources sources serve_fails dial (codes "nameq")
      no_log log_on log_on by_path by_fd (started by_path) (started by_fd) (codes "secret") local
      (pos 5) refl refl refl refl refl refl refl
