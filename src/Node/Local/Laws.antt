-- ===== src/Node/Local/Laws.antt =====
-- `updateFeatures` stores the new features exactly when they differ from the old ones.
use nameq.Base.{
  ◌≡◌, ◌≢◌, refl, sym, ℕ_discrete, ◌⊎◌, inl, inr, Bool, true, false, Option, none, some, [], ◌∷◌,
  arith, Option-cases,
}
use mathlib.Core.Path.{subst}
use nameq.Base.Text.{Text, Bytes}
use nameq.Base.Map.{lookup, IsMap}
use nameq.Base.Run.{Run, returns}
use nameq.Node.{Raw, Features}
use nameq.Node.Local.{any_changed, any_removed}

-- No value is the nil pointer.
abbrev pub HasValues : Features → Type 0
HasValues [] = Unit
HasValues ((name, value) ∷ rest) = (value ≢ none) × HasValues rest

lookup-HasValues : (k : Text) (m : Features) → HasValues m → lookup k m ≢ some none
unfolding lookup
lookup-HasValues k [] s = λ e. cc
lookup-HasValues k ((j, v) ∷ m) s = λ e. ground (arith, s.0, lookup-HasValues k m s.1)

-- What a loop of `updateFeatures` finds: a name at which `P` holds, or none.
abbrev pub Found : Run Bool → (Text → Type 0) → Type 0
Found r P = ((k : Text) × (r ≡ returns true) × P k) ⊎ ((r ≡ returns false) × ((k : Text) → ¬ P k))

-- `k` has a value in the new features, and it is not the old one.
abbrev pub Changed : Features → Features → Text → Type 0
Changed old new k = (lookup k new ≢ none) × (lookup k new ≢ lookup k old)

abbrev pub Removed : Features → Features → Text → Type 0
Removed new old k = (lookup k old ≢ none) × (lookup k new ≡ none)

pub Found-of-eq : {r q : Run Bool} {P : Text → Type 0} → r ≡ q → Found q P → Found r P
Found-of-eq {P} e f = subst (λ r. Found r P) (sym e) f

-- The head of the range does not differ: what is found in the rest decides.
Found-cons :
    (old : Features) (name : Text) (b : Bytes) (rest : Features)
    → lookup name rest ≡ none
    → lookup name old ≡ some (some b)
    → Found (any_changed old rest) (Changed old rest)
    → Found (any_changed old rest) (Changed old ((name, some b) ∷ rest))
unfolding lookup
Found-cons old name b rest fresh same (inl (k, e, p)) = inl (k, e, ground (arith, p.0, p.1))
Found-cons old name b rest fresh same (inr (e, unchanged)) =
    inr (e, λ k p. unchanged k (ground (arith, p.0, p.1)))

module _ (old : Features) (name : Text) (b : Bytes) (rest : Features) where
  any_changed-differs :
      lookup name old ≢ some (some b)
      → lookup name old ≢ some none
      → any_changed old ((name, some b) ∷ rest) ≡ returns true
  unfolding any_changed
  any_changed-differs h s = ground arith

  any_changed-same :
      lookup name old ≡ some (some b)
      → any_changed old ((name, some b) ∷ rest) ≡ any_changed old rest
  unfolding any_changed
  any_changed-same h = ground arith

pub Option_Raw-discrete : Discrete (Option Raw)
Option_Raw-discrete = hlevel ℕ_discrete

Changed-self :
    (old : Features) (name : Text) (b : Bytes) (rest : Features)
    → lookup name old ≢ some (some b)
    → Changed old ((name, some b) ∷ rest) name
unfolding lookup
Changed-self old name b rest d = ground arith

any_removed-step :
    (new : Features) (name : Text) (v : Raw) (rest : Features) (w : Raw)
    → lookup name rest ≡ none
    → lookup name new ≡ some w
    → Found (returns (any_removed new rest)) (Removed new rest)
    → Found (returns (any_removed new ((name, v) ∷ rest))) (Removed new ((name, v) ∷ rest))
unfolding any_removed lookup
any_removed-step new name v rest w fresh e (inl (k, f, p)) =
    inl (k, ground arith, ground (arith, p.0, p.1))
any_removed-step new name v rest w fresh e (inr (f, kept)) =
    inr (ground arith, λ k p. kept k (ground (arith, p.0, p.1)))

pub any_changed-Found :
    (old new : Features)
    → IsMap new
    → HasValues new
    → HasValues old
    → Found (any_changed old new) (Changed old new)
any_changed-Found old [] u s t =
    inr (unfold any_changed in refl, λ k p. p.0 (unfold lookup in refl))
any_changed-Found old ((name, none) ∷ rest) u s t = absurd (s.0 refl)
any_changed-Found old ((name, some b) ∷ rest) u s t =
    elim (Option_Raw-discrete (lookup name old) (some (some b))) [
      | yes e ↦
          Found-of-eq (any_changed-same old name b rest e)
            (Found-cons old name b rest u.0 e (any_changed-Found old rest u.1 s.1 t))
      | no d ↦ inl (
        name,
        any_changed-differs old name b rest d (lookup-HasValues name old t),
        Changed-self old name b rest d,
      )
    ]

pub any_removed-Found :
    (new old : Features) → IsMap old → Found (returns (any_removed new old)) (Removed new old)
any_removed-Found new [] u = inr (unfold any_removed in refl, λ k p. p.0 (unfold lookup in refl))
any_removed-Found new ((name, v) ∷ rest) u = elim (Option-cases (lookup name new)) [
  | inl e ↦ inl (name, unfold any_removed in ground arith, unfold lookup in ground arith)
  | inr (w, e) ↦ any_removed-step new name v rest w u.0 e (any_removed-Found new rest u.1)
]
