-- ===== src/Prelude/Text.antt =====
-- Texts as the program reads them: white space as Rust's `char::is_whitespace` has it, `trim`,
-- `contains` and the tests on single characters. A character is its code point.
pub mod Laws
pub mod Prefix
use Prim.Native.Nat.{ℕ, ◌+◌, Ordering}
use Prim.Native.Char.{Char, code}
use Prim.Native.String.{String, compare}
use mathlib.Core.Bool.{Bool, true, false, ◌&&◌, ◌||◌, not}
use mathlib.Core.Option.{Option, none, some}
use mathlib.Core.List.{List, [], ◌∷◌}
use text.Mathlib.Text.{starts_with}
use lightai_platform.Prelude.Tests.{◌==◌, nat_eq, leb, ltb, if◌then◌else◌}

-- the Unicode property White_Space
unfoldable pub is_whitespace : ℕ → Bool
is_whitespace c =
    (leb 9 c && leb c 13)
    || nat_eq c 32
    || nat_eq c 0x85
    || nat_eq c 0xa0
    || nat_eq c 0x1680
    || (leb 0x2000 c && leb c 0x200a)
    || nat_eq c 0x2028
    || nat_eq c 0x2029
    || nat_eq c 0x202f
    || nat_eq c 0x205f
    || nat_eq c 0x3000

-- the general category Cc
unfoldable pub is_control : ℕ → Bool
is_control c = ltb c 32 || (leb 127 c && leb c 159)

-- `s.chars().any(p)`
unfoldable pub any_char : (ℕ → Bool) → String → Bool
any_char p String.[] = false
any_char p (String.◌∷◌ c s) = p (code c) || any_char p s

-- `s.chars().all(p)`
unfoldable pub all_char : (ℕ → Bool) → String → Bool
all_char p String.[] = true
all_char p (String.◌∷◌ c s) = p (code c) && all_char p s

-- `s.trim().is_empty()`
unfoldable pub is_blank : String → Bool
unfolding is_whitespace all_char
is_blank s = all_char is_whitespace s

unfoldable pub trim_start : String → String
unfolding is_whitespace
trim_start String.[] = String.[]
trim_start (String.◌∷◌ c s) =
    let rest = trim_start s in if is_whitespace (code c) then rest else String.◌∷◌ c s

unfoldable pub trim_end : String → String
unfolding is_whitespace
trim_end String.[] = String.[]
trim_end (String.◌∷◌ c s) =
    let rest = trim_end s in
    if is_whitespace (code c) && (rest == "") then String.[] else String.◌∷◌ c rest

unfoldable pub trim : String → String
unfolding trim_start trim_end
trim s = trim_start (trim_end s)

-- `s.contains(t)` for a text `t`
unfoldable pub contains_text : String → String → Bool
contains_text t String.[] = t == ""
contains_text t (String.◌∷◌ c s) = starts_with (String.◌∷◌ c s) t || contains_text t s

-- `list.contains(&s)`
unfoldable pub one_of : List String → String → Bool
one_of [] s = false
one_of (a ∷ as_) s = (s == a) || one_of as_ s

-- the order of texts, by their characters
abbrev pub text_leb : String → String → Bool
text_leb s t = elim (compare s t) [ Ordering.gt ↦ false | _ ↦ true ]

-- the order of SQLite, in which NULL comes first
abbrev pub column_leb : Option String → Option String → Bool
column_leb none t = true
column_leb (some s) none = false
column_leb (some s) (some t) = text_leb s t

-- `char::is_ascii_uppercase` on code points, and `to_ascii_lowercase`
abbrev pub is_upper : ℕ → Bool
is_upper c = leb 65 c && leb c 90

-- no text occurs twice
unfoldable pub all_distinct : List String → Bool
unfolding one_of
all_distinct [] = true
all_distinct (s ∷ ss) = not (one_of ss s) && all_distinct ss

-- a character before the first part
unfoldable pub push_char : Char → List String → List String
push_char c [] = String.◌∷◌ c "" ∷ []
push_char c (s ∷ ss) = String.◌∷◌ c s ∷ ss

-- `s.split(sep)` for a character
unfoldable pub split_on : ℕ → String → List String
unfolding push_char
split_on sep String.[] = "" ∷ []
split_on sep (String.◌∷◌ c s) =
    let rest = split_on sep s in if nat_eq (code c) sep then "" ∷ rest else push_char c rest

abbrev pub before_pair : Char → Option (String × String) → Option (String × String)
before_pair c none = none
before_pair c (some (s, t)) = some (String.◌∷◌ c s, t)

-- `s.split_once(sep)` for a character
unfoldable pub split_once : ℕ → String → Option (String × String)
split_once sep String.[] = none
split_once sep (String.◌∷◌ c s) =
    let rest = split_once sep s in if nat_eq (code c) sep then some ("", s) else before_pair c rest

-- the bytes of a character in UTF-8
abbrev pub char_bytes : ℕ → ℕ
char_bytes c = if ltb c 0x80 then 1 else if ltb c 0x800 then 2 else if ltb c 0x10000 then 3 else 4

-- `s.len()`
unfoldable pub byte_length : String → ℕ
byte_length String.[] = 0
byte_length (String.◌∷◌ c s) = char_bytes (code c) + byte_length s
