-- ===== src/Prelude/Text.antt =====
-- Texts put together, as template literals and `join` do.
use Prim.Native.Nat.{ℕ, zero, suc, ◌/◌, ◌%◌}
use Prim.Native.String.{String, ◌++◌}
use mathlib.Core.Path.{◌≡◌, refl}
use mathlib.Core.List.{List, [], ◌∷◌}
use mathlib.Core.Bool.{Bool, ◌||◌}
use droid_swarm.Prelude.Tests.{ltb, ◌==◌, if◌then◌else◌}

-- The sum of two texts
infixr 65 ◌<>◌
abbrev pub ◌<>◌ : String → String → String
s <> t = s ++ t

-- `parts.join(separator)`
unfoldable pub join : String → List String → String
join separator [] = ""
join separator (s ∷ []) = s
join separator (s ∷ t ∷ rest) = s ++ separator ++ join separator (t ∷ rest)

-- The decimal digit of a number below ten
unfoldable pub digit : ℕ → String
digit zero = "0"
digit (suc zero) = "1"
digit (suc (suc zero)) = "2"
digit (suc (suc (suc zero))) = "3"
digit (suc (suc (suc (suc zero)))) = "4"
digit (suc (suc (suc (suc (suc zero))))) = "5"
digit (suc (suc (suc (suc (suc (suc zero)))))) = "6"
digit (suc (suc (suc (suc (suc (suc (suc zero))))))) = "7"
digit (suc (suc (suc (suc (suc (suc (suc (suc zero)))))))) = "8"
digit _ = "9"

-- The fuel is above the number, which falls at every division.
decimal_digits : ℕ → ℕ → String → String
unfolding digit
decimal_digits zero n later = later
decimal_digits (suc fuel) n later =
    let rest = decimal_digits fuel (n / 10) (digit (n % 10) ++ later) in
    if ltb n 10 then digit n ++ later else rest

-- `String(n)` of a natural number
unfoldable pub decimal : ℕ → String
unfolding decimal_digits
decimal n = decimal_digits (suc n) n ""

decimal_lem : decimal 10203 ≡ "10203"
unfolding decimal
decimal_lem = refl

-- `text.endsWith(suffix)`
unfoldable pub ends_with : String → String → Bool
ends_with String.[] suffix = String.[] == suffix
ends_with (String.◌∷◌ c s) suffix =
    let rest = ends_with s suffix in String.◌∷◌ c s == suffix || rest
