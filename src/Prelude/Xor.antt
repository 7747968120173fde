-- ===== src/Prelude/Xor.antt =====
-- `^` on native numbers: its digits, and the order of the terms of a fold with it.
use Prim.Native.Nat.{digits, differ, bit_xor-bitwise}
use rulestone.Prelude.{
  ℕ, zero, suc, ◌+◌, ◌*◌, ◌/◌, ◌%◌, ◌≤◌, ◌<◌, bit_xor, ◌≡◌, refl, ap, sym, ◌∙◌, arith,
}

-- What `^` computes, on a count of digits to go.
abbrev xor_from : ℕ → ℕ → ℕ → ℕ
xor_from count a b = digits (λ y. y) differ count a b

xor_from-zero : (count b : ℕ) → xor_from count 0 b ≡ b
xor_from-zero zero b = refl
xor_from-zero (suc count) b = refl

-- Any two counts that are large enough give the same.
xor_from_agree :
    (b a short long : ℕ) → a ≤ short → a ≤ long → xor_from short a b ≡ xor_from long a b
xor_from_agree b zero short long s l = xor_from-zero short b ∙ sym (xor_from-zero long b)
xor_from_agree b (suc a) (suc short) (suc long) s l =
    ap (λ rest. rest * 2 + differ (suc a % 2) (b % 2))
      (xor_from_agree (b / 2) (suc a / 2) short long (omega arith) (omega arith))
xor_from_agree b (suc a) zero long s l = absurd (omega arith)
xor_from_agree b (suc a) (suc short) zero s l = absurd (omega arith)

bits_differ : (x y : ℕ) → x < 2 → y < 2 → differ x y ≡ (x + y) % 2
bits_differ zero y p q = omega arith
bits_differ (suc x) zero p q = omega arith
bits_differ (suc zero) (suc zero) p q = refl
bits_differ (suc (suc x)) (suc y) p q = absurd (omega arith)
bits_differ (suc zero) (suc (suc y)) p q = absurd (omega arith)

-- The lowest digit of `a ^ b`, and the rest.
bit_xor-halves : (a b : ℕ) → bit_xor a b ≡ bit_xor (a / 2) (b / 2) * 2 + (a % 2 + b % 2) % 2
bit_xor-halves zero b = omega (arith, bit_xor-bitwise 0 b, bit_xor-bitwise 0 (b / 2))
bit_xor-halves (suc a) b =
    bit_xor-bitwise (suc a) b
    ∙ ap (λ rest. rest * 2 + differ (suc a % 2) (b % 2))
        (xor_from_agree (b / 2) (suc a / 2) a (suc a / 2) (omega arith) (omega arith)
          ∙ sym (bit_xor-bitwise (suc a / 2) (b / 2)))
    ∙ ap (λ low. bit_xor (suc a / 2) (b / 2) * 2 + low)
        (bits_differ (suc a % 2) (b % 2) (omega arith) (omega arith))

bit_xor-half : (a b : ℕ) → bit_xor a b / 2 ≡ bit_xor (a / 2) (b / 2)
bit_xor-half a b = omega (arith, bit_xor-halves a b)

-- The last two terms of a chain of `^` change places.
bit_xor-swap_up_to :
    (n a b c : ℕ) → a ≤ n → b ≤ n → c ≤ n → bit_xor (bit_xor a b) c ≡ bit_xor (bit_xor a c) b
bit_xor-swap_up_to zero zero zero zero p q r = refl
bit_xor-swap_up_to zero (suc a) b c p q r = absurd (omega arith)
bit_xor-swap_up_to zero zero (suc b) c p q r = absurd (omega arith)
bit_xor-swap_up_to zero zero zero (suc c) p q r = absurd (omega arith)
bit_xor-swap_up_to (suc n) a b c p q r = omega (
  arith,
  bit_xor-halves (bit_xor a b) c,
  bit_xor-halves (bit_xor a c) b,
  bit_xor-halves a b,
  bit_xor-halves a c,
  ap (λ x. bit_xor x (c / 2)) (bit_xor-half a b),
  ap (λ x. bit_xor x (b / 2)) (bit_xor-half a c),
  bit_xor-swap_up_to n (a / 2) (b / 2) (c / 2) (omega arith) (omega arith) (omega arith),
)

-- In a chain of `^` two terms may change places.
pub bit_xor-swap : (a b c : ℕ) → bit_xor (bit_xor a b) c ≡ bit_xor (bit_xor a c) b
bit_xor-swap a b c = bit_xor-swap_up_to (a + b + c) a b c (omega arith) (omega arith) (omega arith)
