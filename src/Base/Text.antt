-- ===== src/Base/Text.antt =====
-- Go strings and byte slices, as lists of bytes.
use Prim.Native.Nat.{ℕ, zero, suc, ◌+◌, ◌/◌, ◌%◌}
use Prim.Native.Char.{code}
use Prim.Native.String.{String}
use mathlib.Core.Path.{◌≡◌, refl, ap, ap₂}
use mathlib.Core.List.{List, [], ◌∷◌, ◌++◌}
use native.Mathlib.Decide.{ℕ_discrete}
use nameq.Base.Tests.{ltb, if◌then◌else◌}

abbrev pub Text : Type 0
Text = List ℕ

abbrev pub Bytes : Type 0
Bytes = List ℕ

-- The bytes of an ASCII literal.
abbrev pub codes : String → Text
codes String.[] = []
codes (String.◌∷◌ c s) = code c ∷ codes s

abbrev head_of : Text → ℕ
head_of [] = 0
head_of (x ∷ xs) = x

abbrev tail_of : Text → Text
tail_of [] = []
tail_of (x ∷ xs) = xs

cons_dec : {x y : ℕ} {xs ys : Text} → Dec (x ≡ y) → Dec (xs ≡ ys) → Dec (x ∷ xs ≡ y ∷ ys)
cons_dec (yes p) (yes q) = yes (ap₂ ◌∷◌ p q)
cons_dec (yes p) (no q) = no (λ e. q (ap tail_of e))
cons_dec (no p) d = no (λ e. p (ap head_of e))

-- `==` of strings, as a decision.
unfoldable pub Text-discrete : Discrete Text
unfolding cons_dec ℕ_discrete
Text-discrete [] [] = yes refl
Text-discrete [] (y ∷ ys) = no (cc)
Text-discrete (x ∷ xs) [] = no (cc)
Text-discrete (x ∷ xs) (y ∷ ys) = cons_dec (ℕ_discrete x y) (Text-discrete xs ys)

-- `%d` of a number that is not negative. Each division by ten takes a round of the fuel, so a
-- number is fuel enough for its own digits.
decimal_with : ℕ → ℕ → Text
decimal_with zero n = []
decimal_with (suc f) n =
    let rest = decimal_with f (n / 10) in
    if ltb n 10 then (b'0' + n) ∷ [] else rest ++ ((b'0' + n % 10) ∷ [])

unfoldable pub decimal : ℕ → Text
unfolding decimal_with
decimal n = decimal_with (suc n) n
