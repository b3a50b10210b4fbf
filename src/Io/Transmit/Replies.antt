-- ===== src/Io/Transmit/Replies.antt =====
-- The targets of a reply are the addresses of one message, each once.
use nameq.Base.{
  some, ◌≡◌, refl, ◌∙◌, true, false, ◌||◌, List, [], ◌∷◌, ◌++◌, arith, if◌then◌else◌, Bool-cases,
  inl, inr,
}
use nameq.Node.{Addr}
use nameq.Io.Transmit.{reply, same_addr, is_in, collect, after_event}

-- No two of the pointers are the same.
abbrev pub AllDistinct : List Addr → Type 0
AllDistinct [] = Unit
AllDistinct (a ∷ rest) = (is_in a rest ≡ false) × AllDistinct rest

is_in-append : (a : Addr) (xs ys : List Addr) → is_in a (xs ++ ys) ≡ (is_in a xs || is_in a ys)
unfolding is_in
is_in-append a [] ys = refl
is_in-append a (x ∷ xs) ys = ground (arith, is_in-append a xs ys)

is_in-same : (a b : Addr) (xs : List Addr) → same_addr a b ≡ true → is_in a xs ≡ is_in b xs
unfolding is_in same_addr
is_in-same a b [] h = refl
is_in-same a b (x ∷ xs) h = ground (arith, is_in-same a b xs h)

-- What is in `replyTo` once an address has been looked at.
is_in-add :
    (a x : Addr) (xs : List Addr)
    → is_in a (if is_in x xs then xs else xs ++ (x ∷ [])) ≡ (is_in a xs || same_addr x a)
unfolding is_in
is_in-add a x xs = elim (Bool-cases (same_addr x a)) [
  | inl e ↦ ground (arith, is_in-same x a xs e, is_in-append a xs (x ∷ []))
  | inr e ↦ ground (arith, is_in-append a xs (x ∷ []))
]

is_in-collect :
    (a : Addr) (reply_to message : List Addr)
    → is_in a (collect reply_to message) ≡ (is_in a reply_to || is_in a message)
unfolding collect is_in
is_in-collect a reply_to [] = ground arith
is_in-collect a reply_to (x ∷ rest) =
    is_in-collect a (if is_in x reply_to then reply_to else reply_to ++ (x ∷ [])) rest
    ∙ rw (is_in-add a x reply_to) (ground arith)

AllDistinct-append_one :
    (x : Addr) (xs : List Addr) → AllDistinct xs → is_in x xs ≡ false → AllDistinct (xs ++ (x ∷ []))
unfolding is_in same_addr
AllDistinct-append_one x [] h f = (refl, tt)
AllDistinct-append_one x (y ∷ xs) h f = (
  ground (arith, h.0, is_in-append y xs (x ∷ [])),
  AllDistinct-append_one x xs h.1 (ground arith),
)

AllDistinct-add :
    (x : Addr) (xs : List Addr)
    → AllDistinct xs
    → AllDistinct (if is_in x xs then xs else xs ++ (x ∷ []))
AllDistinct-add x xs h = elim (Bool-cases (is_in x xs)) [
  | inl e ↦ rw e h
  | inr e ↦ rw e (AllDistinct-append_one x xs h e)
]

AllDistinct-collect :
    (reply_to message : List Addr) → AllDistinct reply_to → AllDistinct (collect reply_to message)
unfolding collect
AllDistinct-collect reply_to [] h = h
AllDistinct-collect reply_to (x ∷ rest) h =
    AllDistinct-collect (if is_in x reply_to then reply_to else reply_to ++ (x ∷ [])) rest
      (AllDistinct-add x reply_to h)

-- A message on the reply channel does not end the loop: it leaves the addresses of the message, those
-- and no others, each pointer once, as the targets of the next transmission.
pub after_event-reply :
    (message : List Addr)
    → (reply_to : List Addr) × (after_event (reply message) ≡ some reply_to)
      × AllDistinct reply_to
      × ((a : Addr) → is_in a reply_to ≡ is_in a message)
after_event-reply message = (
  collect [] message,
  unfold after_event in refl,
  AllDistinct-collect [] message tt,
  λ a. is_in-collect a [] message ∙ (unfold is_in in refl),
)
