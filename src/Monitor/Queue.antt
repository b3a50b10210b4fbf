-- ===== src/Monitor/Queue.antt =====
-- What each handler of the monitor puts on its queue, as a list of features.
use mathlib.Core.List.{append-nil, append_assoc}
use nameq.Base.{
  ◌≡◌, refl, ap, sym, ◌∙◌, Bool, true, false, Option, none, some, List, [], ◌∷◌, ◌++◌, arith,
  if◌then◌else◌, Option-cases, inl, inr,
}
use nameq.Base.Text.{Text, Bytes}
use nameq.Demux.{Feature}
use nameq.Monitor.{
  Names, World, Event, FeatureMonitor, enqueue, unstarted, add_host, remove_host, add_hosts,
  add_feature, add_features, boot_monitor, host_event,
}

abbrev pub somes : List Feature → List (Option Feature)
somes [] = []
somes (f ∷ fs) = some f ∷ somes fs

pub somes-append : (fs gs : List Feature) → somes (fs ++ gs) ≡ somes fs ++ somes gs
somes-append [] gs = refl
somes-append (f ∷ fs) gs = rw (somes-append fs gs)

abbrev pub enqueue_all : List Feature → FeatureMonitor → FeatureMonitor
enqueue_all fs m = record m { queued = m.queued ++ somes fs }

enqueue_all-append :
    (fs gs : List Feature) (m : FeatureMonitor)
    → enqueue_all gs (enqueue_all fs m) ≡ enqueue_all (fs ++ gs) m
enqueue_all-append fs gs m =
    ap (λ (q : List (Option Feature)). record m { queued = q })
      (append_assoc m.queued (somes fs) (somes gs)
        ∙ ap (λ (q : List (Option Feature)). m.queued ++ q) (sym (somes-append fs gs)))

pub enqueue_all-nil : (m : FeatureMonitor) → m ≡ enqueue_all [] m
enqueue_all-nil m =
    ap (λ (q : List (Option Feature)). record m { queued = q }) (sym (append-nil m.queued))

module _ (names : Names) (w : World) where
  abbrev pub feature_of : Text → Bytes → Option Bytes → Feature
  feature_of path host content = record {
    name = names.base (names.dir path);
    host = host;
    data' = content;
  }

  abbrev pub read_features : Text → Bytes → Option (Option Bytes) → List Feature
  read_features path host none = []
  read_features path host (some none) = []
  read_features path host (some (some content)) = feature_of path host (some content) ∷ []

  abbrev pub absent_features : Text → Bytes → Bool → List Feature
  absent_features path host true = []
  absent_features path host false = feature_of path host none ∷ []

  abbrev pub host_features : (Bytes → List Feature) → Option Bytes → List Feature
  host_features f none = []
  host_features f (some host) = f host

  -- The feature of a file: its content, if the name is an address and the file can be read.
  unfoldable pub file_features : Text → Text → List Feature
  file_features hostname path =
      host_features (λ host. read_features path host (w.open_file path)) (names.parse_ip hostname)

  -- The feature that a file has been, if the name is an address and the file is not there.
  unfoldable pub gone_features : Text → Text → List Feature
  gone_features hostname path =
      host_features (λ host. absent_features path host (w.stat path)) (names.parse_ip hostname)

  unfoldable pub files_features : Text → List Text → List Feature
  files_features dir [] = []
  files_features dir (info ∷ rest) =
      file_features info (names.join dir info) ++ files_features dir rest

  -- The features of a directory that can be watched and read.
  unfoldable pub dir_features : Text → List Feature
  dir_features dir =
      if w.add_watch dir
      then []
      else elim (w.read_dir dir) [ none ↦ [] | some infos ↦ files_features dir infos ]

  unfoldable pub dirs_features : Text → List Text → List Feature
  dirs_features feature_dir [] = []
  dirs_features feature_dir (info ∷ rest) =
      dir_features (names.join feature_dir info) ++ dirs_features feature_dir rest

  -- The features that are there at the start.
  unfoldable pub initial_features : Text → List Feature
  initial_features feature_dir = elim (w.read_dir feature_dir) [
    | none ↦ []
    | some infos ↦ dirs_features feature_dir infos
  ]

  -- Those of an event of a file.
  unfoldable pub event_features : Event → List Feature
  event_features e =
      (if e.create then file_features (names.base e.name) e.name else [])
      ++ (if e.remove then gone_features (names.base e.name) e.name else [])

  add_host_lem :
      (hostname path : Text) (m : FeatureMonitor)
      → add_host names w hostname path m ≡ enqueue_all (file_features hostname path) m
  unfolding add_host file_features
  add_host_lem hostname path m = ground (arith, enqueue_all-nil m)

  remove_host_lem :
      (hostname path : Text) (m : FeatureMonitor)
      → remove_host names w hostname path m ≡ enqueue_all (gone_features hostname path) m
  unfolding remove_host gone_features
  remove_host_lem hostname path m = ground (arith, enqueue_all-nil m)

  add_hosts_lem :
      (dir : Text) (infos : List Text) (m : FeatureMonitor)
      → add_hosts names w dir infos m ≡ enqueue_all (files_features dir infos) m
  unfolding add_hosts files_features
  add_hosts_lem dir [] m = enqueue_all-nil m
  add_hosts_lem dir (info ∷ rest) m =
      let fs = file_features info (names.join dir info) in
      add_hosts_lem dir rest _
      ∙ ap (enqueue_all (files_features dir rest)) (add_host_lem info (names.join dir info) m)
      ∙ enqueue_all-append fs (files_features dir rest) m

  pub add_feature_lem :
      (dir : Text) (m : FeatureMonitor)
      → add_feature names w dir m ≡ enqueue_all (dir_features dir) m
  unfolding add_feature dir_features
  add_feature_lem dir m = elim (Option-cases (w.read_dir dir)) [
    | inl e ↦ ground (arith, enqueue_all-nil m)
    | inr (infos, e) ↦ ground (arith, enqueue_all-nil m, add_hosts_lem dir infos m)
  ]

  add_features_lem :
      (dir : Text) (infos : List Text) (m : FeatureMonitor)
      → add_features names w dir infos m ≡ enqueue_all (dirs_features dir infos) m
  unfolding add_features dirs_features
  add_features_lem dir [] m = enqueue_all-nil m
  add_features_lem dir (info ∷ rest) m =
      let fs = dir_features (names.join dir info) in
      add_features_lem dir rest _
      ∙ ap (enqueue_all (dirs_features dir rest)) (add_feature_lem (names.join dir info) m)
      ∙ enqueue_all-append fs (dirs_features dir rest) m

  queued_dirs :
      (dir : Text) (o : Option (List Text))
      → elim o [ none ↦ unstarted | some infos ↦ add_features names w dir infos unstarted ]
        ≡ enqueue_all (elim o [ none ↦ [] | some infos ↦ dirs_features dir infos ]) unstarted
  queued_dirs dir none = refl
  queued_dirs dir (some infos) = add_features_lem dir infos unstarted

  pub boot_monitor_lem :
      (dir : Text)
      → boot_monitor names w dir ≡ enqueue none (enqueue_all (initial_features dir) unstarted)
  unfolding boot_monitor initial_features
  boot_monitor_lem dir = ap (enqueue none) (queued_dirs dir (w.read_dir dir))

  add_host_if :
      (c : Bool) (hostname path : Text) (m : FeatureMonitor)
      → (if c then add_host names w hostname path m else m)
        ≡ enqueue_all (if c then file_features hostname path else []) m
  add_host_if true hostname path m = add_host_lem hostname path m
  add_host_if false hostname path m = enqueue_all-nil m

  remove_host_if :
      (c : Bool) (hostname path : Text) (m : FeatureMonitor)
      → (if c then remove_host names w hostname path m else m)
        ≡ enqueue_all (if c then gone_features hostname path else []) m
  remove_host_if true hostname path m = remove_host_lem hostname path m
  remove_host_if false hostname path m = enqueue_all-nil m

  pub host_event_lem :
      (e : Event) (m : FeatureMonitor) → host_event names w e m ≡ enqueue_all (event_features e) m
  unfolding host_event event_features
  host_event_lem e m =
      let hostname = names.base e.name in
      let created = if e.create then file_features hostname e.name else [] in
      let gone = if e.remove then gone_features hostname e.name else [] in
      remove_host_if e.remove hostname e.name _
      ∙ ap (enqueue_all gone) (add_host_if e.create hostname e.name m)
      ∙ enqueue_all-append created gone m

  pub file_features_one :
      (hostname path : Text) (host content : Bytes)
      → names.parse_ip hostname ≡ some host
      → w.open_file path ≡ some (some content)
      → file_features hostname path ≡ feature_of path host (some content) ∷ []
  unfolding file_features
  file_features_one hostname path host content p q = rw (p, q) refl

  pub gone_features_one :
      (hostname path : Text) (host : Bytes)
      → names.parse_ip hostname ≡ some host
      → w.stat path ≡ false
      → gone_features hostname path ≡ feature_of path host none ∷ []
  unfolding gone_features
  gone_features_one hostname path host p q = rw (p, q) refl
