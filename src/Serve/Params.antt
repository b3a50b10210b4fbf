-- ===== src/Serve/Params.antt =====
-- The parameters of `Serve` and what it fills in.
use nameq.Base.{
  ℕ, ◌==◌, ◌<◌, ◌≡◌, Bool, true, false, Option, none, some, List, [], ◌∷◌, arith, if◌then◌else◌,
}
use nameq.Base.Int.{ℤ}
use nameq.Base.Text.{Text, Bytes, codes}
use nameq.Node.{Net, PacketMode, LocalNode}
use nameq.Codec.{Codec, IsLawful}
use nameq.Packet.{Modes, packet_node}
use nameq.Packet.RoundTrip.{Delivered, unmarshal-marshal}

abbrev pub default_port : ℕ
default_port = 17106

abbrev pub default_feature_dir : Text
default_feature_dir = codes "/etc/nameq/features"

abbrev pub default_state_dir : Text
default_state_dir = codes "/run/nameq/state"

-- `Params`, without the loggers. A nil map of modes is `none`.
pub record Params : Type 0 where
  pub addr : Text
  pub port : ℕ
  pub features : Text
  pub feature_dir : Text
  pub state_dir : Text
  pub send_mode : PacketMode
  pub receive_modes : Option Modes
  pub s3_creds : Option Bytes
  pub s3_region : Text
  pub s3_bucket : Text
  pub s3_prefix : Text
  pub s3_dry_run : Bool

-- `GuessAddr`: of each address of the interfaces its IP, if it is a `net.IPNet`; `none` is an error.
-- The first that is global unicast, printed by `show`.
abbrev pub first_global : Net → (Bytes → Text) → List (Option Bytes) → Text
first_global net show [] = []
first_global net show (none ∷ rest) = first_global net show rest
first_global net show (some ip ∷ rest) =
    if net.is_global_unicast ip then show ip else first_global net show rest

abbrev pub guess_addr : Net → (Bytes → Text) → Option (List (Option Bytes)) → Text
guess_addr net show none = []
guess_addr net show (some addrs) = first_global net show addrs

-- `DefaultParams`, with the address that `GuessAddr` gives and the mode that the caller fills in.
abbrev pub default_params : Text → PacketMode → Params
default_params addr mode = record {
  addr = addr;
  port = default_port;
  features = [];
  feature_dir = default_feature_dir;
  state_dir = default_state_dir;
  send_mode = mode;
  receive_modes = none;
  s3_creds = none;
  s3_region = [];
  s3_bucket = [];
  s3_prefix = [];
  s3_dry_run = false;
}

-- `map[int]*PacketMode{mode.Id: mode}`
abbrev pub only_mode : PacketMode → Modes
only_mode mode id = if id == mode.id then some mode else none

abbrev pub or_text : Text → Text → Text
or_text [] default = default
or_text t default = t

abbrev or_modes : Option Modes → PacketMode → Modes
or_modes none mode = only_mode mode
or_modes (some modes) mode = modes

unfoldable pub fill_defaults : Params → Params
fill_defaults p = record p {
  port = if p.port == 0 then default_port else p.port;
  feature_dir = or_text p.feature_dir default_feature_dir;
  state_dir = or_text p.state_dir default_state_dir;
  receive_modes = some (or_modes p.receive_modes p.send_mode);
}

-- The modes with which `receiveLoop` is started.
abbrev pub modes_of : Option Modes → Modes
modes_of none id = none
modes_of (some modes) id = modes id

-- With the default receive modes a service can read the packets of every service that sends by the
-- same mode: where the mode's number is a byte and the features can be encoded.
pub fill_defaults-Delivered :
    (codec : Codec) (laws : IsLawful codec) (p : Params) (local : LocalNode) (now : ℤ)
    → p.receive_modes ≡ none
    → local.mode ≡ p.send_mode
    → local.mode.id < 256
    → codec.is_encodable (packet_node local now) ≡ true
    → Delivered codec (modes_of (fill_defaults p).receive_modes) local now
fill_defaults-Delivered codec laws p local now default same small fits =
    unmarshal-marshal codec laws (modes_of (fill_defaults p).receive_modes) local now p.send_mode
      small (unfold fill_defaults in ground arith) (ground arith) fits
