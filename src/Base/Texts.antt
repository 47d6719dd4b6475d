-- ===== src/Base/Texts.antt =====
-- Texts: equality of keys, the order of `std::less<std::string>`, and `std::to_string`.
use Prim.Native.Nat.{ℕ, zero, suc, ◌/◌, ◌%◌, Ordering}
use Prim.Native.String.{String, compare, ◌++◌ as append}
use text.Mathlib.Text.{◌==◌ as native_eq}
use mathlib.Core.Bool.{Bool, true, false}
use artest_cli.Base.Tests.{if◌then◌else◌, ◌==◌}

abbrev pub str_eq : String → String → Bool
str_eq a b = native_eq a b

abbrev pub str_lt : String → String → Bool
str_lt a b = elim (compare a b) [ Ordering.lt ↦ true | _ ↦ false ]

abbrev pub is_empty : String → Bool
is_empty s = native_eq s ""

infixr 65 ◌⧺◌
abbrev pub ◌⧺◌ : String → String → String
a ⧺ b = append a b

digit : ℕ → String
digit zero = "0"
digit (suc zero) = "1"
digit (suc (suc zero)) = "2"
digit (suc (suc (suc zero))) = "3"
digit (suc (suc (suc (suc zero)))) = "4"
digit (suc (suc (suc (suc (suc zero))))) = "5"
digit (suc (suc (suc (suc (suc (suc zero)))))) = "6"
digit (suc (suc (suc (suc (suc (suc (suc zero))))))) = "7"
digit (suc (suc (suc (suc (suc (suc (suc (suc zero)))))))) = "8"
digit (suc (suc (suc (suc (suc (suc (suc (suc (suc n))))))))) = "9"

-- Twenty decimal digits hold every `std::size_t` and `std::uint64_t`.
decimal : ℕ → ℕ → String
unfolding digit
decimal zero n = ""
decimal (suc f) n =
    let rest = decimal f (n / 10) in if n / 10 == 0 then digit (n % 10) else rest ⧺ digit (n % 10)

unfoldable pub to_string : ℕ → String
unfolding decimal
to_string n = decimal 20 n
