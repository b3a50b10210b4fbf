-- ===== src/Network/Quiet.antt =====
-- Stretches of steps in which one host does not change its features.
use nameq.Base.{ℕ, ◌≡◌, ◌≢◌, ◌⊎◌, inl, inr, refl, sym, ap, ◌∙◌, In, In-append, arith, ℕ_discrete}
use nameq.Node.{Net}
use nameq.Node.Local.{empty}
use nameq.Codec.{Codec}
use nameq.Network.{Publication, Network, Step, Reach}
use nameq.Network.Step.{configure, sends, ends, receives, scans}
use nameq.Network.Reach.{next}
use nameq.Network.Made.{Sending-IsOf}
use nameq.Network.Addresses.{ip_of, Step-ip_addr}

module _ (net : Net) (codec : Codec) where
  -- The host `i` does not change its features in the step, and does not end.
  abbrev pub Spares : {s s' : Network} → ℕ → Step net codec s s' → Type 0
  Spares i (configure j new local update h) = j ≢ i
  Spares i (sends j new h) = Unit
  Spares i (ends j new h) = j ≢ i
  Spares i (receives j arrival h) = Unit
  Spares i (scans j client now objects result long can h) = Unit

  -- Steps in which the host `i` does not change its features.
  pub data Quiet (i : ℕ) : Network → Network → Type 0 where
    stay : {s : Network} → Quiet i s s
    goes :
        {s s' s'' : Network}
        → Quiet i s s'
        → (x : Step net codec s' s'') → Spares i x
        → Quiet i s s''

  pub Quiet-Reach : {i : ℕ} {s s' : Network} → Reach net codec s → Quiet i s s' → Reach net codec s'
  Quiet-Reach r stay = r
  Quiet-Reach r (goes q x h) = next (Quiet-Reach r q) x

  pub Quiet-ip_addr : {i : ℕ} {s s' : Network} → Quiet i s s' → (k : ℕ) → ip_of s' k ≡ ip_of s k
  Quiet-ip_addr stay = λ k. refl
  Quiet-ip_addr (goes q x h) = λ k. Step-ip_addr net codec x k ∙ Quiet-ip_addr q k

  -- The features are the same.
  pub Quiet-local : {i : ℕ} {s s' : Network} → Quiet i s s' → (s'.hosts i).local ≡ (s.hosts i).local
  Quiet-local stay = refl
  Quiet-local {i} (goes q (configure {s = s} j new local update h) spared) = elim (ℕ_discrete j i) [
    | yes p ↦ absurd (spared p)
    | no p ↦ (ground arith) ∙ Quiet-local q
  ]
  Quiet-local (goes q (sends j new h) spared) = Quiet-local q
  Quiet-local (goes q (ends j new h) spared) = Quiet-local q
  Quiet-local (goes q (receives {s = s} j arrival h) spared) = (ground arith) ∙ Quiet-local q
  Quiet-local (goes q (scans {s = s} j client now objects result long can h) spared) =
      (ground arith) ∙ Quiet-local q

  -- A packet has been sent before, or is another host's, or is made of these features.
  pub Quiet-sent :
      {i : ℕ} {s s' : Network}
      → Quiet i s s'
      → (p : Publication) → In p s'.sent
      → p.host ≡ i
      → In p s.sent ⊎ (p.local ≡ (s.hosts i).local)
  Quiet-sent stay = λ p k e. inl k
  Quiet-sent (goes q (configure j new local update h) spared) = Quiet-sent q
  Quiet-sent (goes q (sends {s = s} j new h) spared) = λ p k e. elim (In-append p new s.sent k) [
    | inl m ↦
        let (host, local, _) = Sending-IsOf codec j (s.hosts j).local h p m in
        inr (local ∙ ap (λ (z : ℕ). (s.hosts z).local) (sym host ∙ e) ∙ Quiet-local q)
    | inr m ↦ Quiet-sent q p m e
  ]
  Quiet-sent (goes q (ends {s = s} j new h) spared) = λ p k e. elim (In-append p new s.sent k) [
    | inl m ↦
        let (host, _, _) = Sending-IsOf codec j (empty (s.hosts j).local) h p m in
        absurd (spared (sym host ∙ e))
    | inr m ↦ Quiet-sent q p m e
  ]
  Quiet-sent (goes q (receives j arrival h) spared) = Quiet-sent q
  Quiet-sent (goes q (scans j client now objects result long can h) spared) = Quiet-sent q
