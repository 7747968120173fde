-- ===== src/Cateng/Builder/Assign/Cover.antt =====
-- The masks of computeCatToRules, and the slot that they are put into.
use Prim.Native.Nat.{bit_or-bitwise}
use native.Mathlib.Nat.{pow-suc, pow-le-pow_right, one-le-pow, mul_assoc, mul_left_comm, mul-add}
use rulestone.Prelude.{
  ℕ, zero, suc, ◌+◌, ◌-◌, ◌*◌, ◌/◌, ◌%◌, ◌^◌, ◌≤◌, ◌<◌, ◌≡◌, refl, ap, sym, ◌∙◌, ◌↔◌, Bool, true,
  false, List, [], ◌∷◌, ◌++◌, arith, ◌==◌, ==_iff, bit_or, length, All, if◌then◌else◌,
}
use rulestone.Types.{Mask, minus_one, shift_left_one, negate}
use rulestone.Prelude.Bits.{bit_or-halves, holds_below, holds_below-at}
use rulestone.Cateng.Builder.Assign.{tail_masks, assign_masks}

-- `|` of numbers whose digits do not overlap is their sum.
zero-bit_or : (a : ℕ) → bit_or 0 a ≡ a
zero-bit_or a = omega (arith, bit_or-bitwise 0 a)

doubled : (i a : ℕ) → 2 ^ suc i * a ≡ 2 * (2 ^ i * a)
doubled i a = ap (λ p. p * a) (pow-suc 2 i) ∙ mul_assoc (2 ^ i) 2 a ∙ mul_left_comm (2 ^ i) 2 a

half_double : (w : ℕ) → 2 * w / 2 ≡ w
half_double w = omega arith

bit_or-double : (v w : ℕ) → bit_or v (2 * w) ≡ bit_or (v / 2) w * 2 + v % 2
bit_or-double v w = rw (bit_or-halves v (2 * w), half_double w) (omega arith)

bit_or-disjoint : (i v a : ℕ) → v < 2 ^ i → bit_or v (2 ^ i * a) ≡ v + 2 ^ i * a
bit_or-disjoint zero zero a h = omega (arith, zero-bit_or (1 * a))
bit_or-disjoint zero (suc v) a h = absurd (omega arith)
bit_or-disjoint (suc i) v a h =
    rw
      (
        doubled i a,
        bit_or-double v (2 ^ i * a),
        bit_or-disjoint i (v / 2) a (omega (arith, pow-suc 2 i)),
      )
      (omega arith)

set_digit : (i v : ℕ) → v < 2 ^ i → bit_or v (2 ^ i) ≡ v + 2 ^ i
set_digit i v h =
    ap (bit_or v) (omega arith) ∙ bit_or-disjoint i v 1 h ∙ ap (λ w. v + w) (omega arith)

module _ {A : Type 0} (fired : A → Bool) where
  -- What a slot holds when the or-sets that fired have set their masks.
  abbrev pub filled : List (A × Mask) → Mask → Mask
  filled [] v = v
  filled ((a, mask) ∷ assigned) v = filled assigned (if fired a then bit_or v mask else v)

  abbrev number : List A → ℕ
  number [] = 0
  number (a ∷ as') = (if fired a then 1 else 0) + 2 * number as'

  number-lt : (s : List A) → number s < 2 ^ length s
  number-lt [] = omega arith
  number-lt (a ∷ s) = ground (arith, number-lt s, pow-suc 2 (length s))

  number_full : (s : List A) → (number s + 1 ≡ 2 ^ length s) ↔ All (λ a. fired a ≡ true) s
  number_full [] = ground arith
  number_full (a ∷ s) = ground (arith, number-lt s, number_full s, pow-suc 2 (length s))

  filled-append :
      (xs ys : List (A × Mask)) (v : Mask) → filled (xs ++ ys) v ≡ filled ys (filled xs v)
  filled-append [] ys v = refl
  filled-append ((a, mask) ∷ xs) ys v = filled-append xs ys (if fired a then bit_or v mask else v)

  shift_power : (i : ℕ) → i < 63 → shift_left_one (2 ^ i) ≡ 2 ^ suc i
  unfolding shift_left_one
  shift_power i h = omega (
    arith,
    pow-suc 2 i,
    pow-le-pow_right {n = 2} (omega arith) {i = suc i} {j = 63} (omega arith),
  )

  next_digit : (i b n : ℕ) → 2 ^ i * (b + 2 * n) ≡ 2 ^ i * b + 2 ^ suc i * n
  next_digit i b n = rw (mul-add (2 ^ i) b (2 * n), doubled i n, mul_left_comm (2 ^ i) 2 n) refl

  tail_step :
      (i : ℕ) (s : List A) (v : Mask) (b : Bool)
      → i < 63
      → v < 2 ^ i
      → ((w : Mask)
          → w < 2 ^ suc i
          → filled ((tail_masks (2 ^ suc i) s).0) w ≡ w + 2 ^ suc i * number s)
      → filled ((tail_masks (shift_left_one (2 ^ i)) s).0) (if b then bit_or v (2 ^ i) else v)
        ≡ v + 2 ^ i * ((if b then 1 else 0) + 2 * number s)
  tail_step i s v true fits h ih =
      ap (λ m. filled ((tail_masks m s).0) (bit_or v (2 ^ i))) (shift_power i fits)
      ∙ ap (filled ((tail_masks (2 ^ suc i) s).0)) (set_digit i v h)
      ∙ ih (v + 2 ^ i) (omega (arith, pow-suc 2 i))
      ∙ omega (arith, next_digit i 1 (number s))
  tail_step i s v false fits h ih =
      ap (λ m. filled ((tail_masks m s).0) v) (shift_power i fits)
      ∙ ih v (omega (arith, pow-suc 2 i))
      ∙ omega (arith, next_digit i 0 (number s))

  filled-tail :
      (i : ℕ) (s : List A) (v : Mask)
      → v < 2 ^ i
      → i + length s ≤ 64
      → filled ((tail_masks (2 ^ i) s).0) v ≡ v + 2 ^ i * number s
  unfolding tail_masks
  filled-tail i [] v h fits = omega arith
  filled-tail i (a ∷ []) v h fits = ground (arith, set_digit i v h)
  filled-tail i (a ∷ b ∷ s) v h fits =
      tail_step i (b ∷ s) v (fired a) (omega arith) h
        (λ w small. filled-tail (suc i) (b ∷ s) w small (omega arith))

  last-tail :
      (i : ℕ) (s : List A) (j : ℕ) → i + length s ≡ j → j ≤ 63 → (tail_masks (2 ^ i) s).1 ≡ 2 ^ j
  unfolding tail_masks
  last-tail i [] j size fits = ap (λ n. 2 ^ n) (omega arith)
  last-tail i (a ∷ s) j size fits =
      ap (λ m. (tail_masks m s).1) (shift_power i (omega arith))
      ∙ last-tail (suc i) s j (omega arith) fits

-- The bits from `k` on, as a multiple of 2 ^ k and as a difference.
high_bits : (k : ℕ) → k < 64 → negate (2 ^ k) ≡ 2 ^ k * (2 ^ (64 - k) - 1)
unfolding negate holds_below
high_bits k h =
    (==_iff (negate (2 ^ k)) (2 ^ k * (2 ^ (64 - k) - 1))).0
      (holds_below-at (λ i. negate (2 ^ i) == 2 ^ i * (2 ^ (64 - i) - 1)) 64 k h refl)

power-le : (k : ℕ) → k ≤ 63 → 2 ^ k ≤ 2 ^ 63
power-le k h = pow-le-pow_right {n = 2} (omega arith) {i = k} {j = 63} h

power_pos : (k : ℕ) → 1 ≤ 2 ^ k
power_pos k = one-le-pow k 2 (omega arith)

negate_power : (k : ℕ) → k ≤ 63 → negate (2 ^ k) + 2 ^ k ≡ 2 ^ 64
unfolding negate
negate_power k h = omega (arith, power-le k h, power_pos k)

set_high : (k v : ℕ) → k ≤ 63 → v < 2 ^ k → bit_or v (negate (2 ^ k)) ≡ v + negate (2 ^ k)
set_high k v fits h =
    ap (bit_or v) (high_bits k (omega arith))
    ∙ bit_or-disjoint k v (2 ^ (64 - k) - 1) h
    ∙ ap (λ w. v + w) (sym (high_bits k (omega arith)))

module _ {A : Type 0} (fired : A → Bool) where
  filled-assign :
      (head : A) (tail : List A)
      → length tail ≤ 64
      → filled fired (assign_masks (head ∷ tail)) 0 ≡ (
          if fired head
          then bit_or (number fired tail) (negate ((tail_masks 1 tail).1))
          else number fired tail)
  unfolding assign_masks
  filled-assign head tail fits =
      filled-append fired ((tail_masks 1 tail).0) _ 0
      ∙ ap (λ w. if fired head then bit_or w (negate ((tail_masks 1 tail).1)) else w)
          (filled-tail fired 0 tail 0 (omega arith) (omega arith) ∙ omega arith)

  -- For one to 64 or-sets, the slot of a set that starts at zero is full, after the masks of the
  -- or-sets that fired, exactly when all of them did.
  pub filled_iff :
      (or_sets : List A)
      → 1 ≤ length or_sets
      → length or_sets ≤ 64
      → (filled fired (assign_masks or_sets) 0 ≡ minus_one) ↔ All (λ a. fired a ≡ true) or_sets
  filled_iff [] some_set fits = absurd (omega arith)
  filled_iff (head ∷ tail) some_set fits = ground (
    arith,
    filled-assign head tail (omega arith),
    ap (λ m. bit_or (number fired tail) (negate m)) (last head tail fits),
    set_high (length tail) (number fired tail) (omega arith) (number-lt fired tail),
    negate_power (length tail) (omega arith),
    power-le (length tail) (omega arith),
    number_full fired tail,
    number-lt fired tail,
  )
    where
      last :
          (head : A) (tail : List A)
          → length (head ∷ tail) ≤ 64
          → (tail_masks 1 tail).1 ≡ 2 ^ length tail
      last head tail fits = last-tail fired 0 tail (length tail) (omega arith) (omega arith)

-- With 65 or-sets, the slot is full although the first or-set did not fire: its mask is zero, since
-- the 64 bits are used up by the others.
pub overflow :
    {A : Type 0} (fired : A → Bool) (head : A) (tail : List A)
    → length tail ≡ 64
    → All (λ a. fired a ≡ true) tail
    → fired head ≡ false
    → filled fired (assign_masks (head ∷ tail)) 0 ≡ minus_one
overflow fired head tail size all_fired miss = ground (
  arith,
  filled-assign fired head tail (omega arith),
  number_full fired tail,
  ap (λ n. 2 ^ n) size,
)
