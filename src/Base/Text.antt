-- ===== src/Base/Text.antt =====
-- Texts: the test for the empty text, joining the parts of an f-string, and decimal numerals.
use Prim.Native.Nat.{ℕ, zero, suc, ◌+◌, ◌/◌, ◌%◌}
use Prim.Native.String.{String, ◌++◌}
use mathlib.Core.Path.{◌≡◌, refl}
use mathlib.Core.Bool.{Bool}
use mathlib.Core.List.{List, [], ◌∷◌}
use text.Mathlib.Text.{◌==◌ as ◌=s◌}
use agent_containment.Base.Tests.{ltb, if◌then◌else◌}

-- `not text`
abbrev pub is_empty : String → Bool
is_empty s = s =s ""

unfoldable pub concat : List String → String
concat [] = ""
concat (s ∷ rest) = s ++ concat rest

digit : ℕ → String
digit zero = "0"
digit (suc zero) = "1"
digit (suc (suc zero)) = "2"
digit (suc (suc (suc zero))) = "3"
digit (suc (suc (suc (suc zero)))) = "4"
digit (suc (suc (suc (suc (suc zero))))) = "5"
digit (suc (suc (suc (suc (suc (suc zero)))))) = "6"
digit (suc (suc (suc (suc (suc (suc (suc zero))))))) = "7"
digit (suc (suc (suc (suc (suc (suc (suc (suc zero)))))))) = "8"
digit (suc (suc (suc (suc (suc (suc (suc (suc (suc _))))))))) = "9"

-- Fuel `n + 1` is enough, since each round divides by ten.
decimal_from : ℕ → ℕ → String → String
decimal_from zero n acc = acc
decimal_from (suc f) n acc =
    let rest = decimal_from f (n / 10) (digit (n % 10) ++ acc) in
    if ltb n 10 then digit n ++ acc else rest

-- `str(n)`
unfoldable pub decimal : ℕ → String
unfolding digit decimal_from
decimal n = decimal_from (n + 1) n ""

decimal_example : decimal 4096 ≡ "4096"
unfolding decimal
decimal_example = refl
