-- ===== src/Config/Update.antt =====
-- What a scan of the directory makes of the local node.
use nameq.Base.{
  ◌≡◌, ◌≢◌, refl, ap, ◌∙◌, ◌⊎◌, inl, inr, ◌&&◌, Bool, true, false, none, some, List, [], ◌∷◌, arith,
  if◌then◌else◌, Option-cases,
}
use nameq.Base.Text.{Text}
use nameq.Base.Map.{lookup, insert, erase, IsMap, insert-IsMap, erase-IsMap}
use nameq.Base.Run.{returns}
use nameq.Node.{Raw, Features, LocalNode}
use nameq.Node.Local.Laws.{HasValues}
use nameq.Node.Local.Update.{update_features-Updated}
use nameq.Config.{
  FileInfo, Files, feature_re, filenames_of, copy_features, apply_file, apply_files,
  scanned_features, Configured, scan_config,
}
use nameq.Config.Overlay.{says, has_file, lookup-scanned_features}

-- A map that `updateFeatures` can compare without reading past a nil pointer.
abbrev pub IsSafe : Features → Type 0
IsSafe m = IsMap m × HasValues m

insert-HasValues :
    (k : Text) (v : Raw) (m : Features) → v ≢ none → HasValues m → HasValues (insert k v m)
unfolding insert
insert-HasValues k v [] n h = (n, tt)
insert-HasValues k v ((j, w) ∷ m) n h = ground (arith, insert-HasValues k v m n h.1)

erase-HasValues : (k : Text) (m : Features) → HasValues m → HasValues (erase k m)
unfolding erase
erase-HasValues k [] h = h
erase-HasValues k ((j, w) ∷ m) h = ground (arith, erase-HasValues k m h.1)

copy_features-IsSafe : (a m : Features) → HasValues a → IsSafe m → IsSafe (copy_features a m)
unfolding copy_features
copy_features-IsSafe [] m h s = s
copy_features-IsSafe ((k, v) ∷ a) m h s =
    copy_features-IsSafe a (insert k v m) h.1
      (insert-IsMap k v m s.0, insert-HasValues k v m h.0 s.1)

-- No file holds JSON null.
abbrev pub NoNull : Files → Type 0
NoNull files = (name : Text) → files.decode_raw (files.read_file name).data' ≢ some none

apply_file-IsSafe :
    (files : Files) (name : Text) (m : Features)
    → NoNull files
    → IsSafe m
    → IsSafe (apply_file files name m)
unfolding apply_file
apply_file-IsSafe files name m n s =
    elim (Option-cases (files.decode_raw (files.read_file name).data')) [
      | inl e ↦ ground (arith, erase-IsMap name m s.0, erase-HasValues name m s.1)
      | inr (v, e) ↦ ground (
        arith,
        erase-IsMap name m s.0,
        erase-HasValues name m s.1,
        insert-IsMap name v m s.0,
        insert-HasValues name v m (λ p. n name (e ∙ ap some p)) s.1,
      )
    ]

apply_files-IsSafe :
    (files : Files) (names : List Text) (m : Features)
    → NoNull files
    → IsSafe m
    → IsSafe (apply_files files names m)
unfolding apply_files
apply_files-IsSafe files [] m n s = s
apply_files-IsSafe files (name ∷ rest) m n s =
    apply_files-IsSafe files rest (apply_file files name m) n (apply_file-IsSafe files name m n s)

scanned_features-IsSafe :
    (files : Files) (a : Features) (infos : List FileInfo)
    → NoNull files
    → HasValues a
    → IsSafe (scanned_features files a infos)
unfolding scanned_features
scanned_features-IsSafe files a infos n h =
    apply_files-IsSafe files (filenames_of infos) (copy_features a []) n
      (copy_features-IsSafe a [] h (tt, tt))

abbrev configured : Configured → LocalNode → Bool → Configured
configured c local update = record { local = local; notified = if update then true else c.notified }

unnotified :
    (c : Configured) (local : LocalNode) (update : Bool)
    → (update ≡ true) ⊎ (local ≡ c.local)
    → ((configured c local update).notified ≡ true) ⊎ (configured c local update ≡ c)
unnotified c local true h = inl refl
unnotified c local false (inl e) = absurd (ground arith)
unnotified c local false (inr e) = inr (ap (λ (l : LocalNode). configured c l false) e)

-- With no JSON null among the features, a scan of the directory returns. Each feature of the local
-- node is then that of its file over the argument; and the service is notified, or nothing has
-- changed.
pub scan_config-Updated :
    (files : Files) (a : Features) (infos : List FileInfo) (c : Configured)
    → IsMap a
    → HasValues a
    → NoNull files
    → IsSafe c.local.node.features
    → (c' : Configured) × (scan_config files a (some infos) c ≡ returns c')
      × ((k : Text)
          → lookup k c'.local.node.features
            ≡ (if has_file k infos && feature_re k then says files k (lookup k a) else lookup k a))
      × ((c'.notified ≡ true) ⊎ (c' ≡ c))
unfolding scan_config
scan_config-Updated files a infos c m h n s =
    let new = scanned_features-IsSafe files a infos n h in
    let u = update_features-Updated c.local (scanned_features files a infos) new.0 s.0 new.1 s.1 in
    (
      configured c u.local' u.update,
      rw u.ran refl,
      λ k. u.stored k ∙ lookup-scanned_features files a infos k m,
      unnotified c u.local' u.update u.untouched,
    )
