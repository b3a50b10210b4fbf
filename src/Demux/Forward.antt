-- ===== src/Demux/Forward.antt =====
-- Which features each channel of a FeatureDemux gets.
use mathlib.Core.List.{append-nil}
use nameq.Base.{
  ℕ, ◌≡◌, ◌≢◌, refl, ap, sym, ◌∙◌, Bool, true, false, List, [], ◌∷◌, ◌++◌, arith, ite, ℕ_discrete,
  ◌⊎◌, inl, inr,
}
use nameq.Base.Text.{Text, Text-discrete}
use nameq.Base.Map.{lookup-insert}
use nameq.Demux.{Feature, FeatureDemux, outputs_of, add, send_to, forward}

-- What is sent to one channel, in order.
pub received_on : ℕ → List (ℕ × Feature) → List Feature
received_on c [] = []
received_on c ((d, f) ∷ rest) = let fs = received_on c rest in ite (ℕ_discrete d c) (f ∷ fs) fs

-- The features of one name.
pub named : Text → List Feature → List Feature
named n [] = []
named n (f ∷ rest) = let fs = named n rest in ite (Text-discrete f.name n) (f ∷ fs) fs

unfoldable pub occurs : ℕ → List ℕ → Bool
occurs c [] = false
occurs c (d ∷ rest) = ite (ℕ_discrete d c) true (occurs c rest)

received_on-append :
    (c : ℕ) (xs ys : List (ℕ × Feature))
    → received_on c (xs ++ ys) ≡ received_on c xs ++ received_on c ys
unfolding received_on
received_on-append c [] ys = refl
received_on-append c ((d, f) ∷ xs) ys = ground (arith, received_on-append c xs ys)

received_on-absent :
    (c : ℕ) (f : Feature) (channels : List ℕ)
    → occurs c channels ≡ false
    → received_on c (send_to f channels) ≡ []
unfolding received_on send_to occurs
received_on-absent c f [] h = refl
received_on-absent c f (d ∷ rest) h = ground (arith, received_on-absent c f rest)

send_to-append :
    (f : Feature) (xs ys : List ℕ) → send_to f (xs ++ ys) ≡ send_to f xs ++ send_to f ys
unfolding send_to
send_to-append f [] ys = refl
send_to-append f (d ∷ xs) ys = rw (send_to-append f xs ys) refl

outputs_of-add :
    (n : Text) (c : ℕ) (queues : FeatureDemux) (k : Text)
    → outputs_of k (add n c queues)
      ≡ ite (Text-discrete n k) (outputs_of n queues ++ (c ∷ [])) (outputs_of k queues)
unfolding add
outputs_of-add n c queues k =
    ground (arith, lookup-insert n k (outputs_of n queues ++ (c ∷ [])) queues)

received_on-single :
    (c d : ℕ) (f : Feature) → received_on c (send_to f (d ∷ [])) ≡ ite (ℕ_discrete d c) (f ∷ []) []
unfolding received_on send_to
received_on-single c d f = refl

received_on-single_ne : (c d : ℕ) (f : Feature) → d ≢ c → received_on c (send_to f (d ∷ [])) ≡ []
received_on-single_ne c d f h = received_on-single c d f ∙ ground arith

received_on-both :
    (d : ℕ) (f : Feature) (xs ys : List ℕ)
    → received_on d (send_to f (xs ++ ys))
      ≡ received_on d (send_to f xs) ++ received_on d (send_to f ys)
received_on-both d f xs ys =
    ap (received_on d) (send_to-append f xs ys) ∙ received_on-append d (send_to f xs) (send_to f ys)

module _ (n : Text) (c : ℕ) (queues : FeatureDemux) where
  abbrev added : FeatureDemux
  added = add n c queues

  -- What `outputs_of-add` says, split by its decision.
  abbrev chosen : (k : Text) → Dec (n ≡ k) → List ℕ
  chosen k e = ite e (outputs_of n queues ++ (c ∷ [])) (outputs_of k queues)

  chosen_here :
      (f : Feature) (k : Text) (e : Dec (n ≡ k))
      → occurs c (outputs_of k queues) ≡ false
      → occurs c (outputs_of n queues) ≡ false
      → received_on c (send_to f (chosen k e)) ≡ ite e (f ∷ []) []
  chosen_here f k (yes p) h g =
      received_on-both c f (outputs_of n queues) (c ∷ [])
      ∙ ground (arith, received_on-absent c f (outputs_of n queues) g, received_on-single c c f)
  chosen_here f k (no p) h g = received_on-absent c f (outputs_of k queues) h

  chosen_elsewhere :
      (d : ℕ) (f : Feature) (k : Text) (e : Dec (n ≡ k))
      → c ≢ d
      → received_on d (send_to f (chosen k e)) ≡ received_on d (send_to f (outputs_of k queues))
  chosen_elsewhere d f k (yes p) ne =
      received_on-both d f (outputs_of n queues) (c ∷ [])
      ∙ rw (received_on-single_ne d c f ne)
          (append-nil (received_on d (send_to f (outputs_of n queues))))
      ∙ ap (λ (x : Text). received_on d (send_to f (outputs_of x queues))) p
  chosen_elsewhere d f k (no p) ne = refl

  added_here :
      (f : Feature) (k : Text)
      → occurs c (outputs_of k queues) ≡ false
      → occurs c (outputs_of n queues) ≡ false
      → received_on c (send_to f (outputs_of k added)) ≡ ite (Text-discrete n k) (f ∷ []) []
  added_here f k h g =
      ap (λ (xs : List ℕ). received_on c (send_to f xs)) (outputs_of-add n c queues k)
      ∙ chosen_here f k (Text-discrete n k) h g

  added_elsewhere :
      (d : ℕ) (f : Feature) (k : Text)
      → c ≢ d
      → received_on d (send_to f (outputs_of k added))
        ≡ received_on d (send_to f (outputs_of k queues))
  added_elsewhere d f k ne =
      ap (λ (xs : List ℕ). received_on d (send_to f xs)) (outputs_of-add n c queues k)
      ∙ chosen_elsewhere d f k (Text-discrete n k) ne

  -- A channel that is added under a name, and stands under no other, gets the features of that name,
  -- in order and once each. The other channels get what they got without it.
  pub received_on-add :
      (fs : List Feature)
      → ((k : Text) → occurs c (outputs_of k queues) ≡ false)
      → (received_on c (forward added fs) ≡ named n fs)
        × ((d : ℕ)
            → (c ≡ d) ⊎ (received_on d (forward added fs) ≡ received_on d (forward queues fs)))
  unfolding forward named received_on
  received_on-add [] h = (refl, λ d. inr refl)
  received_on-add (f ∷ fs) h =
      let (mine, others) = received_on-add fs h in
      (
        received_on-append c (send_to f (outputs_of f.name added)) (forward added fs)
            ∙ ground (arith, added_here f f.name (h f.name) (h n), mine),
        λ d. elim (others d) [
          | inl p ↦ inl p
          | inr p ↦ elim (ℕ_discrete c d) [
            | yes q ↦ inl q
            | no q ↦ inr (
                received_on-append d (send_to f (outputs_of f.name added)) (forward added fs)
                ∙ rw (p, added_elsewhere d f f.name q) refl
                ∙ sym (
                    received_on-append d (send_to f (outputs_of f.name queues))
                      (forward queues fs)))
          ]
        ],
      )
