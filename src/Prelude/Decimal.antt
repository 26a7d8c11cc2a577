-- ===== src/Prelude/Decimal.antt =====
-- Numbers as Rust prints them in decimal, and texts without regard to the case of ASCII letters.
use Prim.Native.Char.{code}
use Prim.Native.Nat.{ℕ, zero, suc, ◌+◌, ◌/◌, ◌%◌}
use Prim.Native.String.{String, ◌++◌ as ◌<>◌}
use mathlib.Core.Bool.{Bool, true, false, ◌&&◌, ◌||◌}
use mathlib.Core.List.{List, [], ◌∷◌}
use lightai_platform.Prelude.Tests.{nat_eq, leb, ltb, if◌then◌else◌}
use lightai_platform.Prelude.Int.{ℤ, pos, negsuc}

unfoldable pub digit : ℕ → String
digit zero = "0"
digit (suc zero) = "1"
digit (suc (suc zero)) = "2"
digit (suc (suc (suc zero))) = "3"
digit (suc (suc (suc (suc zero)))) = "4"
digit (suc (suc (suc (suc (suc zero))))) = "5"
digit (suc (suc (suc (suc (suc (suc zero)))))) = "6"
digit (suc (suc (suc (suc (suc (suc (suc zero))))))) = "7"
digit (suc (suc (suc (suc (suc (suc (suc (suc zero)))))))) = "8"
digit n = "9"

-- the digits of a number that has no more than the fuel
unfoldable pub digits : ℕ → ℕ → String
unfolding digit
digits zero n = ""
digits (suc fuel) n =
    let front = digits fuel (n / 10) in if ltb n 10 then digit n else front <> digit (n % 10)

-- `to_string` of a u64, which has at most 20 digits
unfoldable pub show_u64 : ℕ → String
unfolding digits
show_u64 n = digits 20 n

-- `to_string` of an i64
unfoldable pub show_i64 : ℤ → String
unfolding show_u64
show_i64 (pos n) = show_u64 n
show_i64 (negsuc n) = "-" <> show_u64 (suc n)

-- the code points of a text
unfoldable pub codes : String → List ℕ
codes String.[] = []
codes (String.◌∷◌ c s) = code c ∷ codes s

abbrev pub lower_code : ℕ → ℕ
lower_code c = if leb 65 c && leb c 90 then c + 32 else c

-- `to_ascii_lowercase`
unfoldable pub lower_codes : String → List ℕ
lower_codes String.[] = []
lower_codes (String.◌∷◌ c s) = lower_code (code c) ∷ lower_codes s

unfoldable pub starts_with_codes : List ℕ → List ℕ → Bool
starts_with_codes [] hay = true
starts_with_codes (n ∷ ns) [] = false
starts_with_codes (n ∷ ns) (h ∷ hs) = nat_eq n h && starts_with_codes ns hs

-- `contains`
unfoldable pub contains_codes : List ℕ → List ℕ → Bool
unfolding starts_with_codes
contains_codes needle [] = starts_with_codes needle []
contains_codes needle (h ∷ hs) = starts_with_codes needle (h ∷ hs) || contains_codes needle hs
