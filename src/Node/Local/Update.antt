-- ===== src/Node/Local/Update.antt =====
-- `updateFeatures` as a whole: what it stores and reports, and where it reads past a nil pointer.
use nameq.Base.{
  ◌≡◌, ◌≢◌, refl, sym, ◌⊎◌, inl, inr, Bool, true, false, none, some, [], ◌∷◌, arith, if◌then◌else◌,
}
use nameq.Base.Text.{Text}
use nameq.Base.Map.{lookup, IsMap}
use nameq.Base.Run.{returns, panics}
use nameq.Node.{Raw, Features, LocalNode}
use nameq.Node.Local.{any_changed, any_removed, with_features, update_features, set_node}
use nameq.Node.Local.Laws.{
  HasValues, Changed, Removed, any_changed-Found, any_removed-Found, Option_Raw-discrete,
}

-- What a run of `updateFeatures` has done.
pub record Updated (local : LocalNode) (new : Features) : Type 0 where
  pub local' : LocalNode
  pub update : Bool
  pub ran : update_features local new ≡ returns (local', update)
  pub stored : (k : Text) → lookup k local'.node.features ≡ lookup k new
  pub needed : (update ≡ false) ⊎ ((k : Text) × (lookup k local.node.features ≢ lookup k new))
  pub untouched : (update ≡ true) ⊎ (local' ≡ local)

module _ (local : LocalNode) (new : Features) where
  abbrev old : Features
  old = local.node.features

  stores : (k : Text) → lookup k (with_features local new).node.features ≡ lookup k new
  unfolding set_node
  stores k = refl

  update_features-changed :
      any_changed old new ≡ returns true
      → update_features local new ≡ returns (with_features local new, true)
  unfolding update_features
  update_features-changed e = rw e

  update_features-unchanged :
      any_changed old new ≡ returns false
      → update_features local new ≡ (
          if any_removed new old
          then returns (with_features local new, true)
          else returns (local, false))
  unfolding update_features
  update_features-unchanged e = rw e

  same_values :
      ((k : Text) → ¬ Changed old new k)
      → ((k : Text) → ¬ Removed new old k)
      → (k : Text) → lookup k old ≡ lookup k new
  same_values unchanged kept k = elim (Option_Raw-discrete (lookup k new) (lookup k old)) [
    | yes e ↦ sym e
    | no d ↦ elim (Option_Raw-discrete (lookup k new) none) [
      | yes e ↦ absurd (kept k (λ f. d (rw (e, f)), e))
      | no f ↦ absurd (unchanged k (f, d))
    ]
  ]

  -- With no nil pointer among the old and the new features `updateFeatures` returns. The node then
  -- has the new features, an update is reported only if some feature differed, and if none is
  -- reported nothing was changed.
  pub update_features-Updated :
      IsMap new → IsMap old → HasValues new → HasValues old → Updated local new
  update_features-Updated u v s t = elim (any_changed-Found old new u s t) [
    | inl (k, e, p) ↦ record {
      local' = with_features local new;
      update = true;
      ran = update_features-changed e;
      stored = stores;
      needed = inr (k, λ q. p.1 (sym q));
      untouched = inl refl;
    }
    | inr (e, unchanged) ↦ elim (any_removed-Found new old v) [
      | inl (k, f, p) ↦ record {
        local' = with_features local new;
        update = true;
        ran = ground (arith, update_features-unchanged e);
        stored = stores;
        needed = inr (k, λ q. p.0 (rw q p.1));
        untouched = inl refl;
      }
      | inr (f, kept) ↦ record {
        local' = local;
        update = false;
        ran = ground (arith, update_features-unchanged e);
        stored = same_values unchanged kept;
        needed = inl refl;
        untouched = inr refl;
      }
    ]
  ]

any_changed_null :
    (old rest : Features) (k : Text)
    → IsMap rest
    → ((j : Text) (v : Raw) → lookup j rest ≡ some v → lookup j old ≡ some v)
    → lookup k rest ≡ some none
    → any_changed old rest ≡ panics
unfolding any_changed lookup
any_changed_null old [] k u same h = cc
any_changed_null old ((name, none) ∷ rest) k u same h = ground (arith, same name none)
any_changed_null old ((name, some b) ∷ rest) k u same h =
    ground (
      arith,
      same name (some b),
      any_changed_null old rest k u.1 (λ j v e. same j v (ground arith)),
    )

-- A second look at unchanged features, one of which is JSON null, reads past its nil pointer.
pub update_features_null :
    (local : LocalNode) (new : Features) (k : Text)
    → IsMap new
    → ((j : Text) → lookup j local.node.features ≡ lookup j new)
    → lookup k new ≡ some none
    → update_features local new ≡ panics
update_features_null local new k u same h =
    unfold update_features in
    rw (any_changed_null local.node.features new k u (λ j v e. rw (same j) e) h)
