-- ===== src/State/Rendered.antt =====
-- The files that entries render to, looked up by path.
use mathlib.Core.Path.{subst}
use nameq.Base.{
  In, ◌≡◌, ◌≢◌, refl, ap, sym, ◌∙◌, ◌⊎◌, inl, inr, none, some, List, [], ◌∷◌, arith, Option-cases,
}
use nameq.Base.Text.{Text, Bytes, Text-discrete}
use nameq.Base.Map.{Map, lookup, IsMap}
use nameq.Base.Run.{returns}
use nameq.Codec.{Codec}
use nameq.State.{Disk, render}
use nameq.State.Entries.{
  Entry, NoneTwice, entry_path, render_all, IsSeparate, IsFile, render_all-cons,
}

lookup_cons :
    (k j : Text) (v w : Bytes) (m : Map Bytes)
    → lookup k ((j, v) ∷ m) ≡ some w
    → ((j ≡ k) × (v ≡ w)) ⊎ (lookup k m ≡ some w)
unfolding lookup
lookup_cons k j v w m h = elim (Text-discrete j k) [
  | yes p ↦ inl (p, ground arith)
  | no p ↦ inr (ground arith)
]

lookup_head : (k j : Text) (v : Bytes) (m : Map Bytes) → j ≡ k → lookup k ((j, v) ∷ m) ≡ some v
unfolding lookup
lookup_head k j v m h = ground arith

lookup_tail : (k j : Text) (v : Bytes) (m : Map Bytes) → j ≢ k → lookup k ((j, v) ∷ m) ≡ lookup k m
unfolding lookup
lookup_tail k j v m h = ground arith

module _ (codec : Codec) (disk : Disk) (dir : Text) where
  -- Every file is that of an entry.
  pub lookup-render_all_from :
      (es : List Entry) (d : Map Bytes) (p : Text) (c : Bytes)
      → render_all codec disk dir es ≡ returns d
      → lookup p d ≡ some c
      → (e : Entry) × In e es × IsFile codec disk dir e p c
  lookup-render_all_from [] d p c h l = absurd (unfold render_all lookup in ground arith)
  lookup-render_all_from (e ∷ es) d p c h l =
      let (content, more, q, r, same) = render_all-cons codec disk dir e es d h in
      elim (lookup_cons p (entry_path codec disk dir e) content c more (ap (lookup p) same ∙ l)) [
        | inl (path, value) ↦ (e, inl refl, (path, q ∙ ap returns value))
        | inr rest ↦ let (x, i, f) = lookup-render_all_from es more p c r rest in (x, inr i, f)
      ]

  -- No two entries share a path.
  pub render_all-IsMap :
      (es : List Entry) (d : Map Bytes)
      → NoneTwice es
      → IsSeparate codec disk dir es
      → render_all codec disk dir es ≡ returns d
      → IsMap d
  render_all-IsMap [] d n s h = unfold render_all in ground arith
  render_all-IsMap (e ∷ es) d n s h =
      let (content, more, q, r, same) = render_all-cons codec disk dir e es d h in
      let path = entry_path codec disk dir e in
      let absent : lookup path more ≡ none = elim (Option-cases (lookup path more)) [
        | inl none_there ↦ none_there
        | inr (c, there) ↦
            let (x, i, f) = lookup-render_all_from es more path c r there in
            let (same_feature, same_host) = s x e (inr i) (inl refl) f.0 in
            absurd (n.0 x i same_feature same_host)
      ] in
      subst IsMap same (absent, render_all-IsMap es more n.1 (λ x y i j. s x y (inr i) (inr j)) r)

  -- Every entry has its file.
  pub lookup-render_all :
      (es : List Entry) (d : Map Bytes) (e : Entry)
      → NoneTwice es
      → IsSeparate codec disk dir es
      → render_all codec disk dir es ≡ returns d
      → In e es
      → (c : Bytes) × (render codec e.value ≡ returns c)
        × (lookup (entry_path codec disk dir e) d ≡ some c)
  lookup-render_all [] d e n s h i = elim i [ ]
  lookup-render_all (x ∷ es) d e n s h (inl y) =
      let (content, more, q, r, same) = render_all-cons codec disk dir x es d h in
      (
        content,
        ap (λ (z : Entry). render codec z.value) (sym y) ∙ q,
        ap (lookup (entry_path codec disk dir e)) (sym same)
            ∙ lookup_head (entry_path codec disk dir e) (entry_path codec disk dir x) content more
                (ap (entry_path codec disk dir) y),
      )
  lookup-render_all (x ∷ es) d e n s h (inr i) =
      let (content, more, q, r, same) = render_all-cons codec disk dir x es d h in
      let (c, f, l) = lookup-render_all es more e n.1 (λ a b j k. s a b (inr j) (inr k)) r i in
      (
        c,
        f,
        ap (lookup (entry_path codec disk dir e)) (sym same)
            ∙ lookup_tail (entry_path codec disk dir e) (entry_path codec disk dir x) content more
                (λ p.
                  let (same_feature, same_host) = s e x (inr i) (inl refl) (sym p) in
                  n.0 e i same_feature same_host)
            ∙ l,
      )
