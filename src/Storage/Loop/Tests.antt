-- ===== src/Storage/Loop/Tests.antt =====
-- The storage loop and the credentials on concrete inputs.
use nameq.Base.{◌≡◌, refl, ◌∷◌, ◌++◌, List, [], none, some}
use nameq.Base.Text.{codes}
use nameq.Base.Run.{returns}
use nameq.Base.Result.{ok, err}
use nameq.Node.{LocalNode}
use nameq.Node.Local.{empty, empty_node}
use nameq.Node.Remotes.Laws.{IsKeyed}
use nameq.Packet.{marshal_for_storage}
use nameq.Storage.Tests.{objects, client, local, now, remotes, remotes-IsKeyed, prefixed}
use nameq.Storage.{Put}
use nameq.Storage.Credentials.{
  is_space, fields_from, parse_credentials, parse_credentials-words, bad_format,
}
use nameq.Storage.Loop.{
  Moment, StorageEvent, notified, timed, Stored, storage_loop, with_slash, ends_in_slash,
}
use nameq.Storage.Loop.Puts.{event_puts, node_puts, storage_loop-puts}
use nameq.Samples.{codec}
use nameq.Samples.Net.{net}

-- A node with a feature.
abbrev featured : LocalNode
featured = record local { node = record empty_node { features = (codes "a", none) ∷ [] } }

abbrev moment : LocalNode → Moment
moment l = record { local = l; client = some client; now = now; listing = ok objects }

abbrev events : List (StorageEvent × Moment)
events = (notified, moment featured) ∷ (timed, moment local) ∷ []

abbrev stored : Stored
stored = record { remotes = remotes; puts = []; scans = [] }

abbrev puts : List Put
puts =
    event_puts codec (codes "p/") events
    ++ node_puts codec (codes "p/") (some client) (empty featured)

storage_loop-puts_example :
    (s : Stored) × (storage_loop net codec (codes "p/") events (moment featured) stored ≡ returns s)
    × (s.puts ≡ [] ++ puts)
    × IsKeyed s.remotes
unfolding marshal_for_storage codec empty
storage_loop-puts_example =
    storage_loop-puts net codec (codes "p/") events (moment featured) stored
      (((_, refl), prefixed), (((_, refl), prefixed), tt)) (_, refl) remotes-IsKeyed

parse_credentials-words_example :
    parse_credentials (some (codes "AK\n SK\n")) ≡ ok (some (codes "AK", codes "SK"))
unfolding is_space
parse_credentials-words_example =
    parse_credentials-words [] 0x41 (codes "K") 0x0a (codes " ") 0x53 (codes "K") (codes "\n") tt
      (refl, (refl, tt)) (refl, (refl, tt)) (refl, (refl, tt)) (refl, tt)

one_word : parse_credentials (some (codes "AK")) ≡ err bad_format
unfolding parse_credentials fields_from is_space
one_word = refl

slash : with_slash (codes "nodes") ≡ codes "nodes/"
unfolding with_slash ends_in_slash
slash = refl
