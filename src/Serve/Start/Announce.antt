-- ===== src/Serve/Start/Announce.antt =====
-- What a service has announced when its main loop begins.
use nameq.Base.{◌≡◌, ◌⊎◌, ◌&&◌, true, List, [], if◌then◌else◌}
use nameq.Base.Text.{Text}
use nameq.Base.Map.{lookup}
use nameq.Base.Run.{Run, returns}
use nameq.Base.Result.{Result, ok}
use nameq.Node.{Node, Features, Net}
use nameq.Codec.{Codec}
use nameq.Config.{FileInfo, Files, Configured, feature_re}
use nameq.Config.Overlay.{has_file, says}
use nameq.Storage.Loop.Puts.{node_puts}
use nameq.Storage.Loop.{with_slash}
use nameq.Serve.Params.{Params}
use nameq.Serve.Start.{World, ServeError, Started}

abbrev started : Started → Run (Result ServeError Started)
started s = returns (ok s)

abbrev configured_ok : Configured → Run (Result ServeError Configured)
configured_ok c = returns (ok c)

module _ (net : Net) (codec : Codec) (w : World) where
  -- The storage has the features of the local node.
  abbrev IsStored : Params → Started → Type 0
  IsStored p s =
      s.stored.puts ≡ node_puts codec (with_slash p.s3_prefix) w.client s.configured.local

-- What a scan says of the features, and whether it notifies.
abbrev Announces : Files → Features → List FileInfo → Configured → Type 0
Announces files a infos c =
    ((k : Text)
      → lookup k c.local.node.features
        ≡ (if has_file k infos && feature_re k then says files k (lookup k a) else lookup k a))
    × ((c.notified ≡ true) ⊎ (c.local.node.features ≡ []))
