-- ===== src/Base/Members.antt =====
-- Membership in a list, with the place kept.
use mathlib.Core.Path.{◌≡◌}
use mathlib.Core.Logic.{◌⊎◌, inl, inr}
use mathlib.Core.List.{List, [], ◌∷◌, ◌++◌}

abbrev pub In : {A : Type 0} → A → List A → Type 0
In x [] = ⊥
In x (y ∷ ys) = (y ≡ x) ⊎ In x ys

pub In-append : {A : Type 0} (x : A) (xs ys : List A) → In x (xs ++ ys) → In x xs ⊎ In x ys
In-append x [] ys h = inr h
In-append x (y ∷ xs) ys (inl e) = inl (inl e)
In-append x (y ∷ xs) ys (inr h) = elim (In-append x xs ys h) [ inl i ↦ inl (inr i) | inr j ↦ inr j ]

pub In-append_left : {A : Type 0} (x : A) (xs ys : List A) → In x xs → In x (xs ++ ys)
In-append_left x [] ys h = elim h [ ]
In-append_left x (y ∷ xs) ys (inl e) = inl e
In-append_left x (y ∷ xs) ys (inr h) = inr (In-append_left x xs ys h)

pub In-append_right : {A : Type 0} (x : A) (xs ys : List A) → In x ys → In x (xs ++ ys)
In-append_right x [] ys h = h
In-append_right x (y ∷ xs) ys h = inr (In-append_right x xs ys h)
