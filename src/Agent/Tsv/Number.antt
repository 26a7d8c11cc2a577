-- ===== src/Agent/Tsv/Number.antt =====
-- `parse_opt_i64` and `parse_opt_f64`. The numbers of type f64 are a parameter: what Rust's library
-- reads as one, and the whole bytes of a number of MB.
use Prim.Native.Char.{code}
use lightai_platform.Prelude.{
  ℕ, zero, suc, ◌+◌, ◌-◌, ◌*◌, ◌^◌, String, Bool, not, ◌&&◌, Option, none, some, ◌==◌, nat_eq, leb,
  ltb, if◌then◌else◌,
}
use lightai_platform.Prelude.Int.{ℤ, pos, negsuc}
use lightai_platform.Prelude.Text.{trim, all_char}

-- f64: `str::parse`, and `(mb * 1024.0 * 1024.0) as i64`
pub record Floats : Type 1 where
  pub F64 : Type 0
  pub parse : String → Option F64
  pub mb_to_bytes : F64 → ℤ

abbrev pub is_digit : ℕ → Bool
is_digit c = leb 48 c && leb c 57

-- the number that the digits after `n` make
unfoldable pub digits_value : ℕ → String → ℕ
digits_value n String.[] = n
digits_value n (String.◌∷◌ c s) = digits_value (10 * n + (code c - 48)) s

-- one digit or more
unfoldable pub unsigned : String → Option ℕ
unfolding all_char digits_value
unsigned s = if not (s == "") && all_char is_digit s then some (digits_value 0 s) else none

abbrev pub in_range : Option ℕ → Option ℤ
in_range none = none
in_range (some n) = if ltb n (2 ^ 63) then some (pos n) else none

abbrev negated : ℕ → ℤ
negated zero = pos 0
negated (suc n) = negsuc n

abbrev pub negative_in_range : Option ℕ → Option ℤ
negative_in_range none = none
negative_in_range (some n) = if leb n (2 ^ 63) then some (negated n) else none

-- `str::parse::<i64>`: a sign or none, and digits; an overflow is an error
unfoldable pub parse_i64 : String → Option ℤ
unfolding unsigned
parse_i64 String.[] = none
parse_i64 (String.◌∷◌ c s) =
    if nat_eq (code c) 45
    then negative_in_range (unsigned s)
    else if nat_eq (code c) 43
    then in_range (unsigned s)
    else in_range (unsigned (String.◌∷◌ c s))

unfoldable pub parse_opt_i64 : String → Option ℤ
unfolding trim parse_i64
parse_opt_i64 s = let trimmed = trim s in if trimmed == "" then none else parse_i64 trimmed

module _ (fl : Floats) where
  unfoldable pub parse_opt_f64 : String → Option fl.F64
  unfolding trim
  parse_opt_f64 s = let trimmed = trim s in if trimmed == "" then none else fl.parse trimmed
