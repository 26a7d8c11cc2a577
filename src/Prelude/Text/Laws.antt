-- ===== src/Prelude/Text/Laws.antt =====
-- Lists of texts: membership, and lists without repetition.
use Prim.Native.String.{String}
use mathlib.Core.Path.{◌≡◌, refl}
use mathlib.Core.Bool.{Bool, true, false, ◌&&◌, ◌||◌}
use mathlib.Core.List.{List, [], ◌∷◌, ◌++◌}
use native.Mathlib.Omega.{arith}
use text.Mathlib.TextEquality.{eq_iff}
use lightai_platform.Prelude.Tests.{◌==◌, if◌then◌else◌}
use text.Mathlib.TextPositions.{eq_refl}
use lightai_platform.Prelude.Text.{one_of, all_distinct}

pub eq_comm : (s t : String) → (s == t) ≡ (t == s)
eq_comm s t = ground (arith, eq_iff s t, eq_iff t s)

pub one_of-if :
    (b : Bool) (x : String) (xs : List String) (n : String)
    → one_of (if b then x ∷ xs else xs) n ≡ (b && n == x) || one_of xs n
unfolding one_of
one_of-if true x xs n = refl
one_of-if false x xs n = refl

pub one_of-append :
    (xs ys : List String) (s : String) → one_of (xs ++ ys) s ≡ one_of xs s || one_of ys s
unfolding one_of
one_of-append [] ys s = refl
one_of-append (x ∷ xs) ys s = ground (arith, one_of-append xs ys s)

pub all_distinct-snoc :
    (xs : List String) (s : String)
    → all_distinct xs ≡ true
    → one_of xs s ≡ false
    → all_distinct (xs ++ s ∷ []) ≡ true
unfolding all_distinct one_of
all_distinct-snoc [] s h k = refl
all_distinct-snoc (x ∷ xs) s h k =
    let tail = all_distinct-snoc xs s (ground (arith, h)) (ground (arith, k)) in
    ground (arith, h, k, tail, one_of-append xs (s ∷ []) x, eq_comm s x)

-- Two lists without repetition and without a common text.
pub all_distinct-append :
    (xs ys : List String)
    → all_distinct xs ≡ true
    → all_distinct ys ≡ true
    → ((s : String) → one_of ys s ≡ true → one_of xs s ≡ false)
    → all_distinct (xs ++ ys) ≡ true
unfolding all_distinct one_of
all_distinct-append [] ys h k apart = k
all_distinct-append (x ∷ xs) ys h k apart =
    let tail = all_distinct-append xs ys (ground (arith, h)) k (λ s e. ground (arith, apart s e)) in
    ground (arith, h, tail, one_of-append xs ys x, apart x, eq_refl x)
