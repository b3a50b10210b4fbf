-- ===== src/Serve/Start/Tests.antt =====
-- The start of a service on concrete parameters.
use nameq.Base.{◌≡◌, refl, ◌∷◌, ◌++◌, [], none, some, true, false, List}
use nameq.Base.Int.{pos}
use nameq.Base.Text.{Text, codes, decimal}
use nameq.Base.Run.{returns}
use nameq.Base.Result.{ok, err}
use nameq.Node.{Features, LocalNode}
use nameq.Node.Local.{empty_node}
use nameq.Node.Remotes.{new_remote_nodes}
use nameq.Config.{FileInfo, Files}
use nameq.Storage.{Client, Scanned}
use nameq.Storage.Loop.Puts.{node_puts}
use nameq.Serve.Params.{Params, default_params, fill_defaults}
use nameq.Serve.Start.{World, Started, start_service, bad_features, unwatchable}
use nameq.Samples.{codec}
use nameq.Samples.Net.{net}

-- Each file holds the number 2.
abbrev files : Files
files = record {
  read_file = λ name. record { data' = codes "2"; error = none };
  trim_space = λ b. b;
  decode_raw = λ b. some (some b);
}

abbrev arg : Features
arg = (codes "a", some (codes "1")) ∷ (codes "b", some (codes "1")) ∷ []

abbrev infos : List FileInfo
infos = record { name = codes "b"; is_dir = false } ∷ []

abbrev client : Client
client = record {
  list_objects = λ marker. none;
  get_object = λ key. none;
  put_object = λ key body. false;
  delete_object = λ key. false;
}

abbrev world : World
world = record {
  join = λ a b. a ++ (b'/' ∷ b);
  decode_features = λ t. some arg;
  new_watcher = false;
  add_watch = λ dir. false;
  files = λ dir. files;
  read_dir = λ dir. some infos;
  mkdir_all = λ dir. false;
  client = some client;
  now = pos 0;
  listing = ok [];
}

abbrev params : Params
params = record (default_params (codes "10.0.0.1") (record { id = 0; secret = [] })) {
  features = codes "{}";
  s3_prefix = codes "p";
}

abbrev found : Features
found = (codes "a", some (codes "1")) ∷ (codes "b", some (codes "2")) ∷ []

abbrev local : LocalNode
local = record {
  ip_addr = codes "10.0.0.1";
  conn = 3;
  mode = record { id = 0; secret = [] };
  node = record empty_node { features = found };
}

abbrev scanned : Scanned
scanned = record { remotes = new_remote_nodes 17106; deletes = []; reply = [] }

abbrev started : Started
started = record {
  params = fill_defaults params;
  configured = record { local = local; notified = true };
  prefix = codes "p/";
  stored = record {
    remotes = new_remote_nodes 17106;
    puts = node_puts codec (codes "p/") (some client) local;
    scans = scanned ∷ [];
  };
}

bad_argument :
    start_service net codec (record world { decode_features = λ t. none }) params
    ≡ returns (err bad_features)
unfolding start_service fill_defaults net decimal
bad_argument = refl

no_feature_directory :
    start_service net codec (record world { add_watch = λ dir. true }) params
    ≡ returns (err unwatchable)
unfolding start_service fill_defaults net decimal
no_feature_directory = refl
