-- ===== src/Agent/Tsv/Cells/Laws.antt =====
-- Rows of columns are read back as they were written.
use Prim.Native.Char.{Char, code}
use lightai_platform.Prelude.{
  ℕ, String, ◌≡◌, refl, ap, ◌∙◌, Bool, true, false, not, ◌||◌, List, [], ◌∷◌, ◌++◌, ◌==◌, nat_eq,
  map, All, arith, eq_iff, Bool-cases, inl, inr,
}
use lightai_platform.Prelude.Text.{all_char, push_char, split_on}
use lightai_platform.Prelude.Rows.{select}
use lightai_platform.Agent.Tsv.Cells.{tab, newline, cut_line_end, rows_of}

-- a character that may stand in a column
abbrev pub is_plain : ℕ → Bool
is_plain c = not (nat_eq c tab || nat_eq c newline || nat_eq c 13)

-- a text and what follows it
unfoldable pub then_text : String → String → String
then_text String.[] t = t
then_text (String.◌∷◌ c s) t = String.◌∷◌ c (then_text s t)

-- the text of a row, as the scripts print it
unfoldable pub print_row : List String → String
unfolding then_text
print_row [] = ""
print_row (c ∷ []) = c
print_row (c ∷ d ∷ cs) = then_text c (then_text "\t" (print_row (d ∷ cs)))

unfoldable pub print_rows : List (List String) → String
unfolding print_row then_text
print_rows [] = ""
print_rows (r ∷ rs) = then_text (print_row r) (then_text "\n" (print_rows rs))

-- a row has a first column that is not empty, and plain columns
abbrev pub IsRow : List String → Type 0
IsRow [] = true ≡ false
IsRow (c ∷ cs) = ((c == "") ≡ false) × All (λ x. all_char is_plain x ≡ true) (c ∷ cs)

split_plain :
    (sep : ℕ) (s : String) → all_char (λ c. not (nat_eq c sep)) s ≡ true → split_on sep s ≡ s ∷ []
unfolding split_on push_char all_char
split_plain sep String.[] h = refl
split_plain sep (String.◌∷◌ c s) h =
    let rest = split_plain sep s (ground (arith, h)) in ground (arith, h, ap (push_char c) rest)

split_tab :
    (s t : String)
    → all_char (λ c. not (nat_eq c tab)) s ≡ true
    → split_on tab (then_text s (then_text "\t" t)) ≡ s ∷ split_on tab t
unfolding split_on push_char all_char then_text
split_tab String.[] t h = refl
split_tab (String.◌∷◌ c s) t h =
    let rest = split_tab s t (ground (arith, h)) in ground (arith, h, ap (push_char c) rest)

split_newline :
    (s t : String)
    → all_char (λ c. not (nat_eq c newline)) s ≡ true
    → split_on newline (then_text s (then_text "\n" t)) ≡ s ∷ split_on newline t
unfolding split_on push_char all_char then_text
split_newline String.[] t h = refl
split_newline (String.◌∷◌ c s) t h =
    let rest = split_newline s t (ground (arith, h)) in ground (arith, h, ap (push_char c) rest)

plain_weaker :
    (p q : ℕ → Bool) (s : String)
    → ((c : ℕ) → p c ≡ true → q c ≡ true)
    → all_char p s ≡ true
    → all_char q s ≡ true
unfolding all_char
plain_weaker p q String.[] w h = refl
plain_weaker p q (String.◌∷◌ c s) w h = ground (arith, h, w (code c), plain_weaker p q s w)

-- neither a line feed nor a carriage return
abbrev in_line : ℕ → Bool
in_line c = not (nat_eq c 13 || nat_eq c newline)

cut_line_end-plain : (s : String) → all_char in_line s ≡ true → cut_line_end s ≡ s
unfolding cut_line_end all_char
cut_line_end-plain String.[] h = refl
cut_line_end-plain (String.◌∷◌ c s) h =
    ground (arith, h, ap (String.◌∷◌ c) (cut_line_end-plain s (ground (arith, h))))

then_text-all_char :
    (p : ℕ → Bool) (s t : String)
    → all_char p s ≡ true
    → all_char p t ≡ true
    → all_char p (then_text s t) ≡ true
unfolding then_text all_char
then_text-all_char p String.[] t h k = k
then_text-all_char p (String.◌∷◌ c s) t h k =
    ground (arith, h, then_text-all_char p s t (ground (arith, h)) k)

abbrev Plain : List String → Type 0
Plain cs = All (λ x. all_char is_plain x ≡ true) cs

split-print_row :
    (c : String) (cs : List String) → Plain (c ∷ cs) → split_on tab (print_row (c ∷ cs)) ≡ c ∷ cs
unfolding print_row
split-print_row c [] (h, _) =
    split_plain tab c (plain_weaker is_plain _ c (λ x e. ground (arith, e)) h)
split-print_row c (d ∷ cs) (h, hs) =
    split_tab c (print_row (d ∷ cs)) (plain_weaker is_plain _ c (λ x e. ground (arith, e)) h)
    ∙ ap (λ r. c ∷ r) (split-print_row d cs hs)

tab-in_line : all_char in_line "\t" ≡ true
unfolding all_char
tab-in_line = refl

print_row-in_line :
    (c : String) (cs : List String) → Plain (c ∷ cs) → all_char in_line (print_row (c ∷ cs)) ≡ true
unfolding print_row
print_row-in_line c [] (h, _) = plain_weaker is_plain in_line c (λ x e. ground (arith, e)) h
print_row-in_line c (d ∷ cs) (h, hs) =
    then_text-all_char in_line c _ (plain_weaker is_plain in_line c (λ x e. ground (arith, e)) h)
      (then_text-all_char in_line "\t" _ tab-in_line (print_row-in_line d cs hs))

-- the text is not empty
has_text : String → Bool
has_text String.[] = false
has_text (String.◌∷◌ c s) = true

cons-filled : (c : Char) (s : String) → (String.◌∷◌ c s == "") ≡ false
unfolding has_text
cons-filled c s = elim (Bool-cases (String.◌∷◌ c s == "")) [
  | inl e ↦ let impossible : true ≡ false = ap has_text ((eq_iff (String.◌∷◌ c s) "").0 e) in cc
  | inr e ↦ e
]

then_text-filled : (s t : String) → (s == "") ≡ false → (then_text s t == "") ≡ false
unfolding then_text
then_text-filled String.[] t h = cc
then_text-filled (String.◌∷◌ c s) t h = cons-filled c (then_text s t)

print_row-filled :
    (c : String) (cs : List String) → (c == "") ≡ false → (print_row (c ∷ cs) == "") ≡ false
unfolding print_row
print_row-filled c [] h = h
print_row-filled c (d ∷ cs) h = then_text-filled c _ h

-- the lines that the loop looks at
abbrev lines_of : List String → List (List String)
lines_of ls = map (split_on tab) (select (λ line. not (line == "")) (map cut_line_end ls))

split-empty : split_on newline "" ≡ "" ∷ []
unfolding split_on
split-empty = refl

lines_of-empty : lines_of ("" ∷ []) ≡ []
unfolding select cut_line_end
lines_of-empty = refl

split-print_rows :
    (rs : List (List String))
    → All IsRow rs
    → split_on newline (print_rows rs) ≡ map print_row rs ++ "" ∷ []
unfolding print_rows
split-print_rows [] h = split-empty
split-print_rows ([] ∷ rs) (h, hs) = cc
split-print_rows ((c ∷ cs) ∷ rs) ((f, p), hs) =
    split_newline (print_row (c ∷ cs)) (print_rows rs) (
      plain_weaker in_line _ (print_row (c ∷ cs)) (λ x e. ground (arith, e))
        (print_row-in_line c cs p))
    ∙ ap (λ ls. print_row (c ∷ cs) ∷ ls) (split-print_rows rs hs)

lines_of-printed :
    (rs : List (List String)) → All IsRow rs → lines_of (map print_row rs ++ "" ∷ []) ≡ rs
unfolding select
lines_of-printed [] h = lines_of-empty
lines_of-printed ([] ∷ rs) (h, hs) = cc
lines_of-printed ((c ∷ cs) ∷ rs) ((f, p), hs) =
    let whole = cut_line_end-plain (print_row (c ∷ cs)) (print_row-in_line c cs p) in
    let filled = print_row-filled c cs f in
    let columns = split-print_row c cs p in
    let rest = lines_of-printed rs hs in ground (arith, whole, filled, columns, rest)

-- What is printed as rows of plain columns, the first of each not empty, is read as the same rows.
pub rows_of-print_rows : (rs : List (List String)) → All IsRow rs → rows_of (print_rows rs) ≡ rs
unfolding rows_of
rows_of-print_rows rs h = ap lines_of (split-print_rows rs h) ∙ lines_of-printed rs h
