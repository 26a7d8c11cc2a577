-- ===== src/Agent/Logs/Laws.antt =====
-- What the tails of logs promise.
use Prim.Native.Char.{Char, code}
use lightai_platform.Prelude.{
  ℕ, zero, suc, ◌+◌, ◌-◌, ◌≤◌, ◌<◌, String, ◌≡◌, refl, ap, true, none, some, leb, ltb, arith,
  Bool-cases, min, sym, inl, inr, ◌∙◌,
}
use lightai_platform.Prelude.Text.{byte_length, char_bytes}
use lightai_platform.Agent.Logs.{slice_from, tail_bytes}

-- What a slice leaves and where it starts make the text.
slice_bytes : (n : ℕ) (s t : String) → slice_from n s ≡ some t → byte_length t + n ≡ byte_length s
unfolding slice_from byte_length
slice_bytes zero s t h = ground (arith, h)
slice_bytes (suc n) String.[] t h = cc
slice_bytes (suc n) (String.◌∷◌ c s) t h =
    ground (arith, h, slice_bytes (suc n - char_bytes (code c)) s t)

-- A tail that is returned has as many bytes as are asked for, or all of the text's where it has fewer.
pub tail_bytes_bound :
    (s t : String) (max_bytes : ℕ)
    → tail_bytes s max_bytes ≡ some t
    → byte_length t ≡ min (byte_length s) max_bytes
unfolding tail_bytes
tail_bytes_bound s t max_bytes h = elim (Bool-cases (leb (byte_length s) max_bytes)) [
  | inl e ↦
      let same : s ≡ t = ground (arith, h, e) in
      let less : byte_length s ≤ max_bytes = ground (arith, e) in
      sym (ap byte_length same) ∙ omega (arith, less)
  | inr e ↦
      let cut = slice_bytes (byte_length s - max_bytes) s t (rw e at h) in
      let more : max_bytes < byte_length s = ground (arith, e) in omega (arith, cut, more)
]

-- a text and another after it
unfoldable pub followed_by : String → String → String
followed_by String.[] t = t
followed_by (String.◌∷◌ c s) t = String.◌∷◌ c (followed_by s t)

byte_length-followed_by :
    (p t : String) → byte_length (followed_by p t) ≡ byte_length p + byte_length t
unfolding followed_by byte_length
byte_length-followed_by String.[] t = omega arith
byte_length-followed_by (String.◌∷◌ c p) t = ground (arith, byte_length-followed_by p t)

some_bytes : (c : ℕ) → (k : ℕ) × (char_bytes c ≡ suc k)
some_bytes c = elim (Bool-cases (ltb c 0x80)) [
  | inl e ↦ (0, ground (arith, e))
  | inr e ↦ elim (Bool-cases (ltb c 0x800)) [
    | inl f ↦ (1, ground (arith, e, f))
    | inr f ↦ elim (Bool-cases (ltb c 0x10000)) [
      | inl g ↦ (2, ground (arith, e, f, g))
      | inr g ↦ (3, ground (arith, e, f, g))
    ]
  ]
]

cons_bytes :
    (c : Char) (s : String) → byte_length (String.◌∷◌ c s) ≡ char_bytes (code c) + byte_length s
unfolding byte_length
cons_bytes c s = refl

slice_inside :
    (n : ℕ) (c : Char) (s : String)
    → 0 < n
    → n < char_bytes (code c)
    → slice_from n (String.◌∷◌ c s) ≡ none
unfolding slice_from
slice_inside zero c s low high = ground (arith, low)
slice_inside (suc n) c s low high = ground (arith, high)

slice_step :
    (n : ℕ) (c : Char) (s : String)
    → leb (char_bytes (code c)) (suc n) ≡ true
    → slice_from (suc n) (String.◌∷◌ c s) ≡ slice_from (suc n - char_bytes (code c)) s
unfolding slice_from
slice_step n c s h = rw h refl

past_char :
    (m k : ℕ) (c : Char) (s : String)
    → char_bytes (code c) ≡ suc k
    → slice_from (char_bytes (code c) + m) (String.◌∷◌ c s) ≡ slice_from m s
past_char m k c s e =
    let begin : char_bytes (code c) + m ≡ suc (k + m) = omega (arith, e) in
    let covers : leb (char_bytes (code c)) (suc (k + m)) ≡ true = rw e (ground arith) in
    let rest : suc (k + m) - char_bytes (code c) ≡ m = omega (arith, e) in
    ap (λ x. slice_from x (String.◌∷◌ c s)) begin
    ∙ slice_step (k + m) c s covers
    ∙ ap (λ x. slice_from x s) rest

slice_past_first :
    (m : ℕ) (c : Char) (s : String)
    → slice_from (char_bytes (code c) + m) (String.◌∷◌ c s) ≡ slice_from m s
slice_past_first m c s = let (k, e) = some_bytes (code c) in past_char m k c s e

slice_past :
    (p t : String) (n : ℕ) → slice_from (byte_length p + n) (followed_by p t) ≡ slice_from n t
unfolding followed_by byte_length
slice_past String.[] t n = ap (λ m. slice_from m t) (omega arith)
slice_past (String.◌∷◌ c p) t n =
    ap (λ m. slice_from m (String.◌∷◌ c (followed_by p t))) (omega arith)
    ∙ slice_past_first (byte_length p + n) c (followed_by p t)
    ∙ slice_past p t n

-- A tail whose first byte falls inside a character, and not at its begin, panics.
pub tail_bytes_panics :
    (p : String) (c : Char) (s : String) (max_bytes : ℕ)
    → byte_length s < max_bytes
    → max_bytes < byte_length s + char_bytes (code c)
    → tail_bytes (followed_by p (String.◌∷◌ c s)) max_bytes ≡ none
unfolding tail_bytes
tail_bytes_panics p c s max_bytes low high =
    let n = byte_length s + char_bytes (code c) - max_bytes in
    let total = byte_length-followed_by p (String.◌∷◌ c s) in
    ground (
      arith,
      low,
      high,
      total,
      cons_bytes c s,
      slice_past p (String.◌∷◌ c s) n,
      slice_inside n c s (omega (arith, high)) (omega (arith, low)),
    )
