-- ===== src/Condition/Operand/RoundTrip.antt =====
-- Conversions there and back, over what strconv.Itoa prints and strconv.ParseInt reads.
use native.Mathlib.Nat.{pow-suc}
use rulestone.Prelude.{
  ℕ, zero, suc, ◌+◌, ◌-◌, ◌*◌, ◌/◌, ◌%◌, ◌^◌, ◌≤◌, ◌<◌, ◌≡◌, refl, ap, false, some, [], ◌∷◌, arith,
  Bool, true, tests, ltb, Bool-cases, inl, inr, ◌∙◌,
}
use rulestone.Prelude.Int.{ℤ, pos, negsuc, ◌≤ℤ◌}
use rulestone.Prelude.Fault.{done, ◌>>=◌}
use rulestone.Condition.Operand.{Text, string, int, boolean, int_operand, boolean_operand}
use rulestone.Condition.Operand.Convert.{convert, or_error}
use rulestone.Condition.Operand.Numerals.{
  Formats, digits_of, itoa, parse_digits, some_digits, in_positive, in_negative, parse_int,
}

parse_step :
    (acc e : ℕ) (rest : Text)
    → e < 10
    → parse_digits acc ((e + 48) ∷ rest) ≡ parse_digits (acc * 10 + e) rest
unfolding parse_digits
parse_step acc e rest h = ground arith

more_fuel : (f n : ℕ) → n < 10 ^ suc f → ltb n 10 ≡ false → 0 < f
more_fuel zero n h large = absurd (ground arith)
more_fuel (suc f) n h large = omega arith

-- Reading the printed digits goes on from the number.
parse_digits-digits_of :
    (fuel n : ℕ) (rest : Text)
    → 0 < fuel
    → n < 10 ^ fuel
    → parse_digits 0 (digits_of fuel n rest) ≡ parse_digits n rest
unfolding digits_of
parse_digits-digits_of zero n rest p h = absurd (omega arith)
parse_digits-digits_of (suc f) n rest p h = elim (Bool-cases (ltb n 10)) [
  | inl small ↦
      rw small (parse_step 0 n rest (omega tests) ∙ ap (λ m. parse_digits m rest) (omega arith))
  | inr large ↦ rw large (
      parse_digits-digits_of f (n / 10) ((n % 10 + 48) ∷ rest) (more_fuel f n h large)
        (omega (arith, pow-suc 10 f))
      ∙ parse_step (n / 10) (n % 10) rest (omega arith)
      ∙ ap (λ m. parse_digits m rest) (omega arith))
]

-- The printed text begins with a digit.
abbrev Begins : Text → Type 0
Begins [] = ⊥
Begins (c ∷ cs) = (48 ≤ c) × (c ≤ 57)

digits_of-Begins : (fuel n : ℕ) (rest : Text) → Begins rest → Begins (digits_of fuel n rest)
unfolding digits_of
digits_of-Begins zero n rest h = h
digits_of-Begins (suc f) n rest h = elim (Bool-cases (ltb n 10)) [
  | inl small ↦ rw small (omega tests)
  | inr large ↦ rw large (digits_of-Begins f (n / 10) ((n % 10 + 48) ∷ rest) (omega arith))
]

parse_digits-nil : (n : ℕ) → parse_digits n [] ≡ some n
unfolding parse_digits
parse_digits-nil n = refl

in_positive_lem : (n : ℕ) → n < 2 ^ 63 → in_positive (some n) ≡ some (pos n)
unfolding in_positive
in_positive_lem n h = ground arith

in_negative_lem : (n : ℕ) → n < 2 ^ 63 → in_negative (some (n + 1)) ≡ some (negsuc n)
unfolding in_negative
in_negative_lem n h = ground arith

parse_minus : (s : Text) → parse_int (45 ∷ s) ≡ in_negative (some_digits s)
unfolding parse_int
parse_minus s = refl

parse_Begins : (s : Text) → Begins s → parse_int s ≡ in_positive (parse_digits 0 s)
unfolding parse_int some_digits
parse_Begins [] h = absurd h
parse_Begins (c ∷ cs) h = ground (arith)

some_digits-Begins : (s : Text) → Begins s → some_digits s ≡ parse_digits 0 s
unfolding some_digits
some_digits-Begins [] h = absurd h
some_digits-Begins (c ∷ cs) h = refl

begin_digits : (f n : ℕ) → Begins (digits_of (suc f) n [])
unfolding digits_of
begin_digits f n = elim (Bool-cases (ltb n 10)) [
  | inl small ↦ rw small (omega tests)
  | inr large ↦ rw large (digits_of-Begins f (n / 10) ((n % 10 + 48) ∷ []) (omega arith))
]

read_digits : (n : ℕ) → n < 10 ^ 20 → parse_digits 0 (digits_of 20 n []) ≡ some n
read_digits n h = parse_digits-digits_of 20 n [] (omega arith) h ∙ parse_digits-nil n

-- What Itoa prints of an int64, ParseInt reads back.
-- What Itoa prints of an int64, ParseInt reads back.
pub parse_int-itoa :
    (v : ℤ) → negsuc (2 ^ 63 - 1) ≤ℤ v → v ≤ℤ pos (2 ^ 63 - 1) → parse_int (itoa v) ≡ some v
unfolding itoa
parse_int-itoa (pos n) low high =
    parse_Begins (digits_of 20 n []) (begin_digits 19 n)
    ∙ ap in_positive (read_digits n (omega arith))
    ∙ in_positive_lem n (omega arith)
parse_int-itoa (negsuc n) low high =
    parse_minus (digits_of 20 (n + 1) [])
    ∙ ap in_negative (
        some_digits-Begins (digits_of 20 (n + 1) []) (begin_digits 19 (n + 1))
        ∙ read_digits (n + 1) (omega arith))
    ∙ in_negative_lem n (omega arith)

module _ {F : Type 0} (g : Formats F) where
  -- A signed 64-bit integer that is converted to a string and back, and a boolean that is converted to an
  -- integer and back, are what they were.
  pub convert-convert :
      (v : ℤ) (b : Bool)
      → negsuc (2 ^ 63 - 1) ≤ℤ v
      → v ≤ℤ pos (2 ^ 63 - 1)
      → ((convert g (int_operand v) string >>= λ t. convert g t int) ≡ done (int_operand v))
        × ((convert g (boolean_operand b) int >>= λ n. convert g n boolean)
            ≡ done (boolean_operand b))
  unfolding convert or_error
  convert-convert v true low high = (rw (parse_int-itoa v low high) refl, refl)
  convert-convert v false low high = (rw (parse_int-itoa v low high) refl, refl)
