-- ===== src/Common/Decimal.antt =====
-- `String(n)` for a natural number.
use qmk_web_app.Common.Tests.{if◌then◌else◌, ◌==◌}
use Prim.Native.Nat.{ℕ, zero, suc, ◌/◌, ◌%◌}
use Prim.Native.Char.{Char}
use Prim.Native.String.{String}

abbrev digit : ℕ → Char
digit zero = "0"
digit (suc zero) = "1"
digit (suc (suc zero)) = "2"
digit (suc (suc (suc zero))) = "3"
digit (suc (suc (suc (suc zero)))) = "4"
digit (suc (suc (suc (suc (suc zero))))) = "5"
digit (suc (suc (suc (suc (suc (suc zero)))))) = "6"
digit (suc (suc (suc (suc (suc (suc (suc zero))))))) = "7"
digit (suc (suc (suc (suc (suc (suc (suc (suc zero)))))))) = "8"
digit _ = "9"

-- The digits of a number in front of a text; each round takes a digit, so `n + 1` rounds suffice.
digits : (fuel n : ℕ) → String → String
digits zero n behind = behind
digits (suc fuel) n behind =
    let text = String.◌∷◌ (digit (n % 10)) behind in
    let more = digits fuel (n / 10) text in if n / 10 == 0 then text else more

unfoldable pub decimal : ℕ → String
unfolding digits
decimal n = digits (suc n) n ""
