-- ===== src/Monitor/Told.antt =====
-- Events that tell of a file that has stopped changing, and what they put on the queue.
use nameq.Base.{
  All, All-append, suc, ◌≡◌, ◌≢◌, refl, sym, ◌∙◌, ◌⊎◌, inl, inr, Bool, true, false, Option, none,
  some, List, [], ◌∷◌, length, drop, arith, ite, if◌then◌else◌,
}
use nameq.Base.Text.{Text, Bytes, Text-discrete}
use nameq.Demux.{Feature}
use nameq.Monitor.{
  Names, World, Event, Case, end_of_boot, event, error, delivered, closed, contains_separator,
}
use nameq.Monitor.Queue.{
  feature_of, file_features_one, gone_features_one, file_features, gone_features, files_features,
  dir_features, event_features,
}
use nameq.Monitor.Stream.{all_features, seen}
use nameq.Monitor.View.{
  Mentions-one, Says, Mentions, Mentions-append_left, Mentions-append_right, Shows, IsAlone,
  file_features-Says, gone_features-Says,
}

-- The file of a feature of a host, in a monitored directory.
pub record IsFeatureFile (names : Names) (feature_dir name : Text) (host : Bytes) (path : Text)
    : Type 0 where
  pub below : path ≢ feature_dir
  pub deep : contains_separator (drop (suc (length feature_dir)) path) ≡ true
  pub named : names.base (names.dir path) ≡ name
  pub hosted : names.parse_ip (names.base path) ≡ some host

module _ (names : Names) (feature_dir name : Text) (host : Bytes) (path : Text)
    (value : Option Bytes) where
  abbrev AreAlone : Text → List Text → Type 0
  AreAlone dir [] = Unit
  AreAlone dir (info ∷ rest) =
      IsAlone names name host path value info (names.join dir info) × AreAlone dir rest

  abbrev DirAlone : Text → Option (List Text) → Type 0
  DirAlone dir none = Unit
  DirAlone dir (some infos) = AreAlone dir infos

  -- No other file that the event leads to stands for the same feature and host.
  abbrev pub HasNoAlias : World → Event → Type 0
  HasNoAlias w e =
      IsAlone names name host path value (names.base e.name) e.name
      × DirAlone e.name (w.read_dir e.name)

  -- Whenever an event is handled, the file system shows the value.
  abbrev pub IsStable : List Case → Type 0
  IsStable [] = Unit
  IsStable (event w e ∷ rest) = (Shows w path value × HasNoAlias w e) × IsStable rest
  IsStable (end_of_boot ∷ rest) = IsStable rest
  IsStable (error ∷ rest) = IsStable rest
  IsStable (delivered ∷ rest) = IsStable rest
  IsStable (closed ∷ rest) = IsStable rest

  -- The event tells of the file: that it was made, or removed.
  abbrev pub Tells : Option Bytes → Event → Type 0
  Tells none e = (e.name ≡ path) × (e.remove ≡ true)
  Tells (some _) e = (e.name ≡ path) × (e.create ≡ true)

  abbrev pub IsTold : List Case → Type 0
  IsTold [] = ⊥
  IsTold (event w e ∷ rest) = Tells value e ⊎ IsTold rest
  IsTold (end_of_boot ∷ rest) = IsTold rest
  IsTold (error ∷ rest) = IsTold rest
  IsTold (delivered ∷ rest) = IsTold rest
  IsTold (closed ∷ rest) = IsTold rest

  files_features-Says :
      (w : World) (dir : Text) (infos : List Text)
      → Shows w path value
      → AreAlone dir infos
      → All (Says name host value) (files_features names w dir infos)
  unfolding files_features
  files_features-Says w dir [] s a = tt
  files_features-Says w dir (info ∷ rest) s a =
      All-append (Says name host value) _ _
        (file_features-Says names name host path value w info (names.join dir info) s a.0)
        (files_features-Says w dir rest s a.1)

  abbrev AllSay : List Feature → Type 0
  AllSay fs = All (Says name host value) fs

  abbrev dir_files : World → Text → Option (List Text) → List Feature
  dir_files w dir o = elim o [ none ↦ [] | some infos ↦ files_features names w dir infos ]

  dir_features-Says :
      (w : World) (dir : Text) (o : Option (List Text))
      → Shows w path value
      → DirAlone dir o
      → AllSay (dir_files w dir o)
  dir_features-Says w dir none s a = tt
  dir_features-Says w dir (some infos) s a = files_features-Says w dir infos s a

  if-AllSay :
      (b : Bool) (fs gs : List Feature) → AllSay fs → AllSay gs → AllSay (if b then fs else gs)
  if-AllSay true fs gs h k = h
  if-AllSay false fs gs h k = k

  event_features-Says :
      (w : World) (e : Event)
      → Shows w path value
      → HasNoAlias w e
      → AllSay (event_features names w e)
  unfolding event_features
  event_features-Says w e s a =
      let hostname = names.base e.name in
      All-append (Says name host value) _ _
        (if-AllSay e.create (file_features names w hostname e.name) []
          (file_features-Says names name host path value w hostname e.name s a.0) tt)
        (if-AllSay e.remove (gone_features names w hostname e.name) []
          (gone_features-Says names name host path value w hostname e.name s a.0) tt)

  all_features-Says :
      (w : World) (e : Event)
      → Shows w path value
      → HasNoAlias w e
      → AllSay (all_features names feature_dir w e)
  unfolding all_features dir_features
  all_features-Says w e s a =
      elim (Text-discrete e.name feature_dir)
        as (λ d. AllSay (
          ite d [] (
            if contains_separator (drop (suc (length feature_dir)) e.name)
            then event_features names w e
            else dir_features names w e.name))) [
              | yes _ ↦ tt
              | no _ ↦
                  if-AllSay (contains_separator (drop (suc (length feature_dir)) e.name)) _ _
                    (event_features-Says w e s a)
                    (if-AllSay (w.add_watch e.name) [] _ tt
                      (dir_features-Says w e.name (w.read_dir e.name) s a.1))
            ]

  pub seen-Says : (cases : List Case) → IsStable cases → AllSay (seen names feature_dir cases)
  unfolding seen
  seen-Says [] h = tt
  seen-Says (event w e ∷ rest) h =
      All-append (Says name host value) _ _ (all_features-Says w e h.0.0 h.0.1) (seen-Says rest h.1)
  seen-Says (end_of_boot ∷ rest) h = seen-Says rest h
  seen-Says (error ∷ rest) h = seen-Says rest h
  seen-Says (delivered ∷ rest) h = seen-Says rest h
  seen-Says (closed ∷ rest) h = seen-Says rest h

  all_features_deep :
      (w : World) (e : Event)
      → IsFeatureFile names feature_dir name host path
      → e.name ≡ path
      → all_features names feature_dir w e ≡ event_features names w e
  unfolding all_features
  all_features_deep w e f p =
      let q : contains_separator (drop (suc (length feature_dir)) e.name) ≡ true = rw p f.deep in
      let r : e.name ≢ feature_dir = λ h. f.below (sym p ∙ h) in ground arith

  made-Mentions :
      (w : World) (e : Event) (c : Bytes)
      → IsFeatureFile names feature_dir name host path
      → e.name ≡ path
      → e.create ≡ true
      → w.open_file path ≡ some (some c)
      → Mentions name host (event_features names w e)
  unfolding event_features
  made-Mentions w e c f p q r =
      rw (q, p, file_features_one names w (names.base path) path host c f.hosted r)
        (Mentions-append_left name host (feature_of names w path host (some c) ∷ []) _
          (Mentions-one name host (feature_of names w path host (some c)) f.named refl))

  removed-Mentions :
      (w : World) (e : Event)
      → IsFeatureFile names feature_dir name host path
      → e.name ≡ path
      → e.remove ≡ true
      → w.stat path ≡ false
      → Mentions name host (event_features names w e)
  unfolding event_features
  removed-Mentions w e f p q r =
      rw (q, p, gone_features_one names w (names.base path) path host f.hosted r)
        (Mentions-append_right name host _ (feature_of names w path host none ∷ [])
          (Mentions-one name host (feature_of names w path host none) f.named refl))

  event-Mentions :
      (v : Option Bytes) (w : World) (e : Event)
      → IsFeatureFile names feature_dir name host path
      → Shows w path v
      → Tells v e
      → Mentions name host (event_features names w e)
  event-Mentions none w e f s t = removed-Mentions w e f t.0 t.1 s.1
  event-Mentions (some c) w e f s t = made-Mentions w e c f t.0 t.1 s.0

  Tells-name : (v : Option Bytes) (e : Event) → Tells v e → e.name ≡ path
  Tells-name none e t = t.0
  Tells-name (some _) e t = t.0

  pub seen-Mentions :
      (cases : List Case)
      → IsFeatureFile names feature_dir name host path
      → IsStable cases
      → IsTold cases
      → Mentions name host (seen names feature_dir cases)
  unfolding seen
  seen-Mentions [] f h t = absurd t
  seen-Mentions (event w e ∷ rest) f h (inl t) =
      Mentions-append_left name host (all_features names feature_dir w e) _
        (rw (all_features_deep w e f (Tells-name value e t)) (event-Mentions value w e f h.0.0 t))
  seen-Mentions (event w e ∷ rest) f h (inr t) =
      Mentions-append_right name host (all_features names feature_dir w e) _
        (seen-Mentions rest f h.1 t)
  seen-Mentions (end_of_boot ∷ rest) f h t = seen-Mentions rest f h t
  seen-Mentions (error ∷ rest) f h t = seen-Mentions rest f h t
  seen-Mentions (delivered ∷ rest) f h t = seen-Mentions rest f h t
  seen-Mentions (closed ∷ rest) f h t = seen-Mentions rest f h t
