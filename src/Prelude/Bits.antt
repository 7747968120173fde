-- ===== src/Prelude/Bits.antt =====
-- The binary digits of a native number, and `|` on them: a mask is read digit by digit.
use Prim.Native.Nat.{digits, bit_or-bitwise}
use native.Mathlib.Nat.{pow-suc}
use rulestone.Prelude.{
  ℕ, zero, suc, ◌+◌, ◌*◌, ◌/◌, ◌%◌, ◌^◌, ◌≤◌, ◌<◌, max, bit_or, ◌≡◌, refl, ap, sym, ◌∙◌, Bool, true,
  false, ◌&&◌, ◌||◌, arith, ◌==◌,
}

-- Digit `i` of `x`, the lowest first.
unfoldable pub bit : ℕ → ℕ → Bool
bit zero x = x % 2 == 1
bit (suc i) x = bit i (x / 2)

-- What `|` computes, on a count of digits to go.
abbrev or_from : ℕ → ℕ → ℕ → ℕ
or_from count a b = digits (λ y. y) max count a b

or_from-zero : (count b : ℕ) → or_from count 0 b ≡ b
or_from-zero zero b = refl
or_from-zero (suc count) b = refl

-- Any two counts that are large enough give the same.
or_from_agree : (b a short long : ℕ) → a ≤ short → a ≤ long → or_from short a b ≡ or_from long a b
or_from_agree b zero short long s l = or_from-zero short b ∙ sym (or_from-zero long b)
or_from_agree b (suc a) (suc short) (suc long) s l =
    ap (λ rest. rest * 2 + max (suc a % 2) (b % 2))
      (or_from_agree (b / 2) (suc a / 2) short long (omega arith) (omega arith))
or_from_agree b (suc a) zero long s l = absurd (omega arith)
or_from_agree b (suc a) (suc short) zero s l = absurd (omega arith)

-- The lowest digit of `a | b`, and the rest.
pub bit_or-halves : (a b : ℕ) → bit_or a b ≡ bit_or (a / 2) (b / 2) * 2 + max (a % 2) (b % 2)
bit_or-halves zero b = omega (arith, bit_or-bitwise 0 b, bit_or-bitwise 0 (b / 2))
bit_or-halves (suc a) b =
    bit_or-bitwise (suc a) b
    ∙ ap (λ rest. rest * 2 + max (suc a % 2) (b % 2))
        (or_from_agree (b / 2) (suc a / 2) a (suc a / 2) (omega arith) (omega arith)
          ∙ sym (bit_or-bitwise (suc a / 2) (b / 2)))

bit_or-half : (a b : ℕ) → bit_or a b / 2 ≡ bit_or (a / 2) (b / 2)
bit_or-half a b = omega (arith, bit_or-halves a b)

-- `|` is "or" in each digit.
pub bit-bit_or : (i a b : ℕ) → bit i (bit_or a b) ≡ (bit i a || bit i b)
unfolding bit
bit-bit_or zero a b = ground (arith, bit_or-halves a b)
bit-bit_or (suc i) a b = rw (bit_or-half a b) (bit-bit_or i (a / 2) (b / 2))

-- `|` stays within a width.
pub bit_or-lt : (n a b : ℕ) → a < 2 ^ n → b < 2 ^ n → bit_or a b < 2 ^ n
bit_or-lt zero zero zero p q = omega (arith, bit_or-bitwise 0 0)
bit_or-lt zero zero (suc b) p q = absurd (omega arith)
bit_or-lt zero (suc a) b p q = absurd (omega arith)
bit_or-lt (suc n) a b p q = omega (
  arith,
  pow-suc 2 n,
  bit_or-halves a b,
  bit_or-lt n (a / 2) (b / 2) (omega (arith, pow-suc 2 n)) (omega (arith, pow-suc 2 n)),
)

-- A number whose first `n` digits are ones is the word of `n` ones.
pub all_ones : (n x : ℕ) → x < 2 ^ n → ((i : ℕ) → i < n → bit i x ≡ true) → x + 1 ≡ 2 ^ n
unfolding bit
all_ones zero x p h = omega arith
all_ones (suc n) x p h = ground (
  arith,
  pow-suc 2 n,
  h 0 (omega arith),
  all_ones n (x / 2) (omega (arith, pow-suc 2 n)) (λ i q. h (suc i) (omega arith)),
)

pub bit_below_zero : (i : ℕ) → bit i 0 ≡ false
unfolding bit
bit_below_zero zero = refl
bit_below_zero (suc i) = bit_below_zero i

-- A test that holds of all numbers below a bound is found to by running it on each.
unfoldable pub holds_below : (ℕ → Bool) → ℕ → Bool
holds_below test zero = true
holds_below test (suc bound) = holds_below test bound && test bound

pub holds_below-at :
    (test : ℕ → Bool) (bound k : ℕ) → k < bound → holds_below test bound ≡ true → test k ≡ true
unfolding holds_below
holds_below-at test zero k small run = absurd (omega arith)
holds_below-at test (suc bound) k small run = ground (arith, holds_below-at test bound k)
