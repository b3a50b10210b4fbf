-- ===== src/Command/Serve/Given.antt =====
-- The sources that the flags of `nameq serve` name, and what `readFile` reads there.
use nameq.Base.{◌≡◌, refl, ap, not, ◌&&◌, false, Option, none, some, [], ◌∷◌, arith}
use nameq.Base.Int.{ℤ, pos, negsuc}
use nameq.Base.Text.{Text, Bytes}
use nameq.Command.Serve.{Sources, is_empty, is_negative, same, read, read_file}

-- The one source that is named, by a descriptor or by a path, and what is read there.
abbrev pub IsGiven : Sources → ℤ → Text → Bytes → Type 0
IsGiven s (pos fd) [] data' = s.read_fd fd ≡ some data'
IsGiven s (pos fd) (_ ∷ _) data' = ⊥
IsGiven s (negsuc _) [] data' = ⊥
IsGiven s (negsuc _) (c ∷ path) data' = s.read_path (c ∷ path) ≡ some data'

-- The same, or no source is named.
abbrev pub IsOptional : Sources → ℤ → Text → Option Bytes → Type 0
IsOptional s fd path (some data') = IsGiven s fd path data'
IsOptional s (pos fd) path none = ⊥
IsOptional s (negsuc _) [] none = Unit
IsOptional s (negsuc _) (_ ∷ _) none = ⊥

read-some :
    (o : Option Bytes) (r : Option Bytes)
    → read o ≡ some r
    → (b : Bytes) × (r ≡ some b) × (o ≡ some b)
read-some none r e = absurd (ground arith)
read-some (some b) r e = (b, ground arith, refl)

pub read_file-IsGiven :
    (s : Sources) (fd : ℤ) (path : Text) (r : Option Bytes)
    → same (is_empty path) (is_negative fd) ≡ false
    → read_file s fd path ≡ some r
    → (b : Bytes) × (r ≡ some b) × IsGiven s fd path b
unfolding read_file
read_file-IsGiven s (pos fd) [] r h e = read-some (s.read_fd fd) r e
read_file-IsGiven s (pos fd) (c ∷ path) r h e = absurd (ground arith)
read_file-IsGiven s (negsuc n) [] r h e = absurd (ground arith)
read_file-IsGiven s (negsuc n) (c ∷ path) r h e = read-some (s.read_path (c ∷ path)) r e

given_IsOptional :
    (s : Sources) (fd : ℤ) (path : Text) (r : Option Bytes)
    → (b : Bytes) × (r ≡ some b) × IsGiven s fd path b
    → IsOptional s fd path r
given_IsOptional s fd path none (b, e, h) = absurd (ground arith)
given_IsOptional s (pos fd) [] (some x) (b, e, h) = ground arith
given_IsOptional s (pos fd) (c ∷ path) (some x) (b, e, h) = h
given_IsOptional s (negsuc n) [] (some x) (b, e, h) = h
given_IsOptional s (negsuc n) (c ∷ path) (some x) (b, e, h) = ground arith

pub read_file-IsOptional :
    (s : Sources) (fd : ℤ) (path : Text) (r : Option Bytes)
    → not (is_empty path) && not (is_negative fd) ≡ false
    → read_file s fd path ≡ some r
    → IsOptional s fd path r
unfolding read_file
read_file-IsOptional s (pos fd) [] r h e =
    given_IsOptional s (pos fd) [] r (read-some (s.read_fd fd) r e)
read_file-IsOptional s (pos fd) (c ∷ path) r h e = absurd (ground arith)
read_file-IsOptional s (negsuc n) [] none h e = tt
read_file-IsOptional s (negsuc n) [] (some b) h e = absurd (ground arith)
read_file-IsOptional s (negsuc n) (c ∷ path) r h e =
    given_IsOptional s (negsuc n) (c ∷ path) r (read-some (s.read_path (c ∷ path)) r e)

pub IsGiven-read_file :
    (s : Sources) (fd : ℤ) (path : Text) (b : Bytes)
    → IsGiven s fd path b
    → (read_file s fd path ≡ some (some b)) × (same (is_empty path) (is_negative fd) ≡ false)
unfolding read_file
IsGiven-read_file s (pos fd) [] b h = (ap read h, refl)
IsGiven-read_file s (pos fd) (c ∷ path) b h = elim h [ ]
IsGiven-read_file s (negsuc n) [] b h = elim h [ ]
IsGiven-read_file s (negsuc n) (c ∷ path) b h = (ap read h, refl)

pub IsOptional-read_file :
    (s : Sources) (fd : ℤ) (path : Text) (o : Option Bytes)
    → IsOptional s fd path o
    → (read_file s fd path ≡ some o) × (not (is_empty path) && not (is_negative fd) ≡ false)
unfolding read_file
IsOptional-read_file s (pos fd) path none h = elim h [ ]
IsOptional-read_file s (negsuc n) [] none h = (refl, refl)
IsOptional-read_file s (negsuc n) (c ∷ path) none h = elim h [ ]
IsOptional-read_file s (pos fd) [] (some b) h = (ap read h, refl)
IsOptional-read_file s (pos fd) (c ∷ path) (some b) h = elim h [ ]
IsOptional-read_file s (negsuc n) [] (some b) h = elim h [ ]
IsOptional-read_file s (negsuc n) (c ∷ path) (some b) h = (ap read h, refl)

pub IsGiven-unique :
    (s : Sources) (fd : ℤ) (path : Text) (a b : Bytes)
    → IsGiven s fd path a
    → IsGiven s fd path b
    → a ≡ b
IsGiven-unique s (pos fd) [] a b h k = ground arith
IsGiven-unique s (pos fd) (c ∷ path) a b h k = elim h [ ]
IsGiven-unique s (negsuc n) [] a b h k = elim h [ ]
IsGiven-unique s (negsuc n) (c ∷ path) a b h k = ground arith
