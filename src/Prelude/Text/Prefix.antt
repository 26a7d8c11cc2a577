-- ===== src/Prelude/Text/Prefix.antt =====
-- Prefixes of texts: two literals that differ at a place are not prefixes of one text.
use Prim.Native.Char.{code}
use Prim.Native.Nat.{ℕ, zero, suc}
use Prim.Native.String.append
use Prim.Native.String.{String, ◌++◌}
use mathlib.Core.Path.{◌≡◌, sym, ◌∙◌, ap}
use mathlib.Core.Bool.{Bool, true, false}
use text.Mathlib.Text.{starts_with}
use text.Mathlib.TextEquality.{starts_with_iff}
use text.Mathlib.TextLemmas.{append_assoc}

-- the code point of the n-th character, and 0 past the end
unfoldable pub char_at : ℕ → String → ℕ
char_at n String.[] = 0
char_at zero (String.◌∷◌ c s) = code c
char_at (suc n) (String.◌∷◌ c s) = char_at n s

-- the text has more than n characters
unfoldable pub is_longer : ℕ → String → Bool
is_longer n String.[] = false
is_longer zero (String.◌∷◌ c s) = true
is_longer (suc n) (String.◌∷◌ c s) = is_longer n s

char_at-append : (n : ℕ) (s t : String) → is_longer n s ≡ true → char_at n (s ++ t) ≡ char_at n s
unfolding char_at is_longer
char_at-append n String.[] t h = cc
char_at-append zero (String.◌∷◌ c s) t h = ap (char_at zero) (append.cons c s t)
char_at-append (suc n) (String.◌∷◌ c s) t h =
    ap (char_at (suc n)) (append.cons c s t) ∙ char_at-append n s t h

pub char_at-starts_with :
    (n : ℕ) (s t : String)
    → starts_with s t ≡ true
    → is_longer n t ≡ true
    → char_at n s ≡ char_at n t
char_at-starts_with n s t h longer =
    let (r, e) = (starts_with_iff s t).0 h in sym (ap (char_at n) e) ∙ char_at-append n t r longer

-- A text that starts with two texts one after the other starts with the first.
pub starts_with-append_left :
    (s t u : String) → starts_with s (t ++ u) ≡ true → starts_with s t ≡ true
starts_with-append_left s t u h =
    let (r, e) = (starts_with_iff s (t ++ u)).0 h in
    (starts_with_iff s t).1 (u ++ r, sym (append_assoc t u r) ∙ e)
