-- ===== src/Common/Decimal.antt =====
-- The decimal digits of an integer: fmt's verb `%d`.
use Prim.Native.Nat.{ℕ, zero, suc, ◌/◌, ◌%◌}
use Prim.Native.Char.{Char}
use Prim.Native.String.{String, [], ◌∷◌}
use trace2receiver.Common.Tests.{ltb, if◌then◌else◌}
use trace2receiver.Common.Int.{ℤ, pos, negsuc}

-- The character at an index of a text, its last one further on.
char_at : Char → String → ℕ → Char
char_at last [] n = last
char_at last (c ∷ s) zero = c
char_at last (c ∷ s) (suc n) = char_at c s n

unfoldable pub digit : ℕ → Char
unfolding char_at
digit n = char_at "0" "0123456789" n

-- The digits in front of a text. Each step divides the number by ten, so that the number is fuel
-- enough for itself.
unfoldable pub digits : ℕ → ℕ → String → String
unfolding digit
digits zero n rest = digit (n % 10) ∷ rest
digits (suc fuel) n rest =
    let more = digits fuel (n / 10) (digit (n % 10) ∷ rest) in
    if ltb n 10 then digit n ∷ rest else more

unfoldable pub decimal : ℤ → String
unfolding digits
decimal (pos n) = digits n n ""
decimal (negsuc n) = "-" ∷ digits (suc n) (suc n) ""
