-- ===== src/Serve/Start.antt =====
-- The start of `Serve` of service/main.go, with `initFeatureConfig` of config.go and `initState` of
-- state.go: what the parts have when the main loop begins.
pub mod Announce
mod Tests
use nameq.Base.{Bool, true, false, Option, none, some, List, [], ◌∷◌, if◌then◌else◌}
use nameq.Base.Text.{Text, Bytes, codes}
use nameq.Base.Run.{Run, returns, panics, ◌>>=◌}
use nameq.Base.Result.{Result, ok, err}
use nameq.Node.{Features, Net, LocalNode, RemoteNodes}
use nameq.Node.Local.{new_local_node}
use nameq.Node.Remotes.{new_remote_nodes}
use nameq.Codec.{Codec}
use nameq.Config.{FileInfo, Files, Configured, scan_config}
use nameq.Base.Int.{ℤ}
use nameq.Storage.{Object, Client, StorageError}
use nameq.Storage.Loop.{Moment, Stored, InitError, init_storage}
use nameq.Serve.Params.{Params, fill_defaults}

-- What the calls at the start give: `true` is an error, and so is `none`. `files` and `read_dir` are
-- of a directory; the client is nil in a dry run.
pub record World : Type 0 where
  pub join : Text → Text → Text
  pub decode_features : Text → Option Features
  pub new_watcher : Bool
  pub add_watch : Text → Bool
  pub files : Text → Files
  pub read_dir : Text → Option (List FileInfo)
  pub mkdir_all : Text → Bool
  pub client : Option Client
  pub now : ℤ
  pub listing : Result StorageError (List Object)

pub data ServeError : Type 0 where
  bad_address bad_features no_watcher unwatchable no_directory : ServeError
  no_storage : InitError → ServeError

-- What `initStorage` finds.
abbrev pub moment : World → LocalNode → Moment
moment w local = record { local = local; client = w.client; now = w.now; listing = w.listing }

-- The features of the argument.
abbrev pub arg_features : World → Text → Option Features
arg_features w [] = some []
arg_features w (c ∷ arg) = w.decode_features (c ∷ arg)

abbrev pub unless_unwatched :
    Bool → Bool → Run (Result ServeError Configured) → Run (Result ServeError Configured)
unless_unwatched true _ r = returns (err no_watcher)
unless_unwatched false true r = returns (err unwatchable)
unless_unwatched false false r = r

-- `watchConfig`, up to the start of its loop.
unfoldable pub watch_config :
    World → Text → Features → Configured → Run (Result ServeError Configured)
unfolding scan_config
watch_config w [] args c = returns (ok c)
watch_config w (d ∷ dir) args c =
    unless_unwatched w.new_watcher (w.add_watch (d ∷ dir))
      (do c' ← scan_config (w.files (d ∷ dir)) args (w.read_dir (d ∷ dir)) c; returns (ok c'))

abbrev pub configured_with :
    World → Text → Option Features → LocalNode → Run (Result ServeError Configured)
configured_with w dir none local = returns (err bad_features)
configured_with w dir (some args) local =
    watch_config w dir args (record { local = local; notified = false })

unfoldable pub init_feature_config :
    World → LocalNode → Text → Text → Run (Result ServeError Configured)
unfolding watch_config
init_feature_config w local arg dir = configured_with w dir (arg_features w arg) local

-- `initState`, up to the start of its loop: whether it fails.
unfoldable pub init_state : World → Text → Bool
init_state w state_dir =
    if w.mkdir_all (w.join state_dir (codes "features"))
    then true
    else w.mkdir_all (w.join state_dir (codes ".tmp"))

-- The parts as the main loop begins.
pub record Started : Type 0 where
  pub params : Params
  pub configured : Configured
  pub prefix : Text
  pub stored : Stored

abbrev pub storage_started :
    Params → Configured → Result InitError (Text × Stored) → Result ServeError Started
storage_started p c (err e) = err (no_storage e)
storage_started p c (ok (prefix, s)) =
    ok (record { params = p; configured = c; prefix = prefix; stored = s })

abbrev pub unless_failed : Bool → Run (Result ServeError Started) → Run (Result ServeError Started)
unless_failed true r = returns (err no_directory)
unless_failed false r = r

module _ (net : Net) (codec : Codec) (w : World) where
  abbrev pub start_storage : Params → Result ServeError Configured → Run (Result ServeError Started)
  start_storage p (err e) = returns (err e)
  start_storage p (ok c) = unless_failed (init_state w p.state_dir) (do
    s ← init_storage net codec p.s3_prefix p.s3_creds (moment w c.local) (new_remote_nodes p.port)
    returns (storage_started p c s))

  abbrev pub start_node : Params → Option LocalNode → Run (Result ServeError Started)
  start_node p none = returns (err bad_address)
  start_node p (some local) = do
    c ← init_feature_config w local p.features p.feature_dir
    start_storage p c

  -- `Serve` up to its loop.
  unfoldable pub start_service : Params → Run (Result ServeError Started)
  unfolding fill_defaults new_local_node init_feature_config init_state init_storage
      new_remote_nodes
  start_service given =
      let p = fill_defaults given in start_node p (new_local_node net p.addr p.port p.send_mode)
