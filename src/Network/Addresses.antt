-- ===== src/Network/Addresses.antt =====
-- The addresses of the hosts, which do not change.
use mathlib.Core.Path.{subst}
use nameq.Base.{ℕ, ◌≡◌, inl, inr, refl, sym, ap, ◌∙◌, Bool, List, In, In-append, arith, ℕ_discrete}
use nameq.Base.Text.{Text}
use nameq.Base.Run.{returns, Run-cases}
use nameq.Node.{Net, Features, LocalNode}
use nameq.Node.Local.{any_changed, update_features, set_node, empty}
use nameq.Codec.{Codec}
use nameq.Network.{Sending, Publication, Network, Step, Reach}
use nameq.Network.Step.{configure, sends, ends, receives, scans}
use nameq.Network.Reach.{here, next}
use nameq.Network.Made.{Sending-IsOf}

abbrev pub ip_of : Network → ℕ → Text
ip_of s i = (s.hosts i).local.ip_addr

update_features-ip_addr :
    (local : LocalNode) (new : Features) (local' : LocalNode) (update : Bool)
    → update_features local new ≡ returns (local', update)
    → local'.ip_addr ≡ local.ip_addr
unfolding update_features set_node
update_features-ip_addr local new local' update h =
    elim (Run-cases (any_changed local.node.features new)) [
      | inl e ↦ absurd (ground arith)
      | inr (changed, e) ↦ ground arith
    ]

module _ (net : Net) (codec : Codec) where
  -- No host changes its address.
  pub Step-ip_addr : {s s' : Network} → Step net codec s s' → (i : ℕ) → ip_of s' i ≡ ip_of s i
  Step-ip_addr (configure {s = s} j new local update h) = λ i. elim (ℕ_discrete j i) [
    | yes p ↦ ground (arith, update_features-ip_addr (s.hosts j).local new local update h)
    | no p ↦ ground arith
  ]
  Step-ip_addr (sends j new h) = λ i. refl
  Step-ip_addr (ends j new h) = λ i. refl
  Step-ip_addr (receives j arrival h) = λ i. ground arith
  Step-ip_addr (scans j client now objects result long can h) = λ i. ground arith

  -- What `j` publishes has its address, where the local node that it is made of does.
  Sending-ip_addr :
      (s : Network) (j : ℕ) (local : LocalNode) (new : List Publication) (p : Publication)
      → local.ip_addr ≡ ip_of s j
      → Sending net codec s.prefix j local new
      → In p new
      → p.local.ip_addr ≡ ip_of s p.host
  Sending-ip_addr s j local new p e h i =
      let (host, l, _) = Sending-IsOf codec j local h p i in
      ap (λ (x : LocalNode). x.ip_addr) l ∙ e ∙ ap (ip_of s) (sym host)

  -- All that is published has its host's address.
  pub Reach-ip_addr :
      {s : Network}
      → Reach net codec s
      → (p : Publication) → In p s.sent
      → p.local.ip_addr ≡ ip_of s p.host
  Reach-ip_addr (here start) =
      λ p i. absurd (subst (λ (l : List Publication). In p l) start.silent i)
  Reach-ip_addr (next {s = s} r (configure j new local update h)) = λ p i.
      Reach-ip_addr r p i ∙ sym (Step-ip_addr (configure {s = s} j new local update h) p.host)
  Reach-ip_addr (next {s = s} r (sends j new h)) = λ p i. elim (In-append p new s.sent i) [
    | inl k ↦ Sending-ip_addr s j (s.hosts j).local new p refl h k
    | inr k ↦ Reach-ip_addr r p k
  ]
  Reach-ip_addr (next {s = s} r (ends j new h)) = λ p i. elim (In-append p new s.sent i) [
    | inl k ↦ Sending-ip_addr s j (empty (s.hosts j).local) new p (unfold empty in refl) h k
    | inr k ↦ Reach-ip_addr r p k
  ]
  Reach-ip_addr (next {s = s} r (receives j arrival h)) =
      λ p i. Reach-ip_addr r p i ∙ sym (Step-ip_addr (receives {s = s} j arrival h) p.host)
  Reach-ip_addr (next {s = s} r (scans j client now objects result long can h)) = λ p i.
      Reach-ip_addr r p i
      ∙ sym (Step-ip_addr (scans {s = s} j client now objects result long can h) p.host)
