-- ===== src/Log.antt =====
-- service/log.go: the loggers, and where a message goes.
use nameq.Base.{Bool, true, false, Option, none, some, List, [], ◌∷◌}
use nameq.Base.Text.{Text, codes}
use nameq.Base.Result.{Result, ok, err}

-- A writer is a handle: the standard error output, or a connection to syslog.
pub data Writer : Type 0 where
  stderr : Writer
  syslog : Text → Text → Text → Writer

-- A logger of the package log: its writer, and the prefix of its lines.
pub record Logger : Type 0 where
  pub writer : Writer
  pub prefix : Text

-- A nil logger is `none`.
pub record Log : Type 0 where
  pub error_logger : Option Logger
  pub info_logger : Option Logger
  pub debug_logger : Option Logger

pub data LogError : Type 0 where
  dial_failed : LogError

abbrev pub logger : Writer → Text → Option Logger
logger w prefix = some (record { writer = w; prefix = prefix })

abbrev pub debug_logger_of : Bool → Writer → Log → Option Logger
debug_logger_of true w l = logger w (codes "DEBUG: ")
debug_logger_of false w l = l.debug_logger

abbrev pub init_loggers : Writer → Bool → Log → Log
init_loggers w debug l = record {
  error_logger = logger w (codes "ERROR: ");
  info_logger = logger w (codes "INFO: ");
  debug_logger = debug_logger_of debug w l;
}

-- `DefaultInit`; `dial` says whether `syslog.Dial` fails.
abbrev pub default_init :
    (Text → Text → Text → Bool) → Text → Text → Text → Bool → Log → Result LogError Log
default_init dial network [] tag debug l = ok (init_loggers stderr debug l)
default_init dial network (c ∷ addr) tag debug l = elim (dial network (c ∷ addr) tag) [
  | true ↦ err dial_failed
  | false ↦ ok (init_loggers (syslog network (c ∷ addr) tag) debug l)
]

-- A message, and the logger that prints it.
abbrev pub Printed : Type 0
Printed = Logger × Text

abbrev pub print : Option Logger → Text → List Printed
print none message = []
print (some l) message = (l, message) ∷ []

-- `Error` and `Errorf`, `Info` and `Infof`, `Debug` and `Debugf`, on the text of the message.
abbrev pub error : Log → Text → List Printed
error l message = print l.error_logger message

abbrev pub info : Log → Text → List Printed
info l message = print l.info_logger message

abbrev pub debug : Log → Text → List Printed
debug l message = print l.debug_logger message
