-- ===== src/Storage/Listing.antt =====
-- Listing page by page gives every object, once and in order.
use nameq.Base.{
  ℕ, zero, suc, ◌<◌, ◌≤◌, ◌≡◌, refl, sym, ap, ◌∙◌, ◌⊎◌, inl, inr, Bool, true, false, not, Option,
  none, some, List, [], ◌∷◌, ◌++◌, length, length-append, arith,
}
use mathlib.Core.List.{append-nil, append_assoc}
use nameq.Base.Text.{Text}
use nameq.Base.Result.{ok}
use nameq.Storage.{Object, Page, Client, next_marker, send_pages, list_objects}

abbrev is_empty : List Object → Bool
is_empty [] = true
is_empty (_ ∷ _) = false

-- The answer to a request after some of the objects: a page that begins with those that follow,
-- truncated exactly if more follow behind it, and then not empty.
pub record Answer (client : Client) (marker : Option Text) (after : List Object) : Type 0 where
  pub page : Page
  pub more : List Object
  pub answers : client.list_objects marker ≡ some page
  pub parts : after ≡ page.contents ++ more
  pub truncated : page.is_truncated ≡ not (is_empty more)
  pub progress : (more ≡ []) ⊎ (1 ≤ length page.contents)

-- S3 as documented: the client lists these objects, and a request with the key of one of them as its
-- marker is answered with those that follow it.
abbrev pub Lists : Client → List Object → Type 0
Lists client objects =
    (before after : List Object)
    → objects ≡ before ++ after
    → Answer client (next_marker none before) after

next_marker-append :
    (m : Option Text) (xs ys : List Object)
    → next_marker m (xs ++ ys) ≡ next_marker (next_marker m xs) ys
unfolding next_marker
next_marker-append m [] ys = refl
next_marker-append m (x ∷ xs) ys = next_marker-append (some x.key) xs ys

List-cases :
    (xs : List Object) → (xs ≡ []) ⊎ ((x : Object) × (rest : List Object) × (xs ≡ x ∷ rest))
List-cases [] = inl refl
List-cases (x ∷ rest) = inr (x, rest, refl)

progress_length :
    {client : Client} {marker : Option Text} {after : List Object} (a : Answer client marker after)
    (x : Object) (rest : List Object)
    → a.more ≡ x ∷ rest
    → 1 ≤ length a.page.contents
progress_length a x rest e = elim a.progress [ inl f ↦ absurd (ground arith) | inr h ↦ h ]

module _ (fuel : ℕ) (client : Client) (marker : Option Text) (page : Page) where
  send_pages-last :
      page.is_truncated ≡ false → send_pages (suc fuel) client marker page ≡ some page.contents
  unfolding send_pages
  send_pages-last e = ground arith

  send_pages-next :
      (marker' : Option Text) (page' : Page) (rest : List Object)
      → page.is_truncated ≡ true
      → marker' ≡ next_marker marker page.contents
      → client.list_objects marker' ≡ some page'
      → send_pages fuel client marker' page' ≡ some rest
      → send_pages (suc fuel) client marker page ≡ some (page.contents ++ rest)
  unfolding send_pages
  send_pages-next marker' page' rest e m l ih = ground arith

module _ (client : Client) (objects : List Object) (lists : Lists client objects) where
  send_pages-rest :
      (fuel : ℕ) (before after : List Object) (a : Answer client (next_marker none before) after)
      → objects ≡ before ++ after
      → length after < fuel
      → send_pages fuel client (next_marker none before) a.page ≡ some after
  send_pages-rest zero before after a e h = absurd (omega arith)
  send_pages-rest (suc fuel) before after a e h = elim (List-cases a.more) [
    | inl done ↦
        send_pages-last fuel client (next_marker none before) a.page (a.truncated ∙ rw done)
        ∙ ap some (sym (a.parts ∙ rw done (append-nil a.page.contents)))
    | inr (x, rest, more) ↦
        let before' = before ++ a.page.contents in
        let e' : objects ≡ before' ++ a.more =
          e
          ∙ ap (λ (l : List Object). before ++ l) a.parts
          ∙ sym (append_assoc before a.page.contents a.more) in
        let a' = lists before' a.more e' in
        let shorter : length a.more < fuel = omega (
          arith,
          ap length a.parts,
          length-append a.page.contents a.more,
          ap length more,
          progress_length a x rest more,
        ) in
        send_pages-next fuel client (next_marker none before) a.page (next_marker none before')
          a'.page a.more (a.truncated ∙ rw more) (next_marker-append none before a.page.contents)
          a'.answers (send_pages-rest fuel before' a.more a' e' shorter)
        ∙ ap some (sym a.parts)
  ]

  -- Where the client lists the objects as documented, listing gives each, once and in the order of
  -- S3, however S3 cuts the list into pages: fuel for one page more than there are objects is enough.
  pub list_objects-all :
      (fuel : ℕ) → length objects < fuel → list_objects fuel (some client) ≡ ok (some objects)
  unfolding list_objects
  list_objects-all fuel h =
      let a = lists [] objects refl in
      let e : send_pages fuel client none a.page ≡ some objects =
        send_pages-rest fuel [] objects a refl h in
      ground (arith, a.answers, e)
