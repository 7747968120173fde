-- ===== src/Cateng/Engine/Store.antt =====
-- One write of applyCatSetMasks: `v | csm.Mask` into the slot that the mask names.
use mathlib.Core.List.{Memᴰ}
use mathlib.Core.List.Memᴰ
use rulestone.Prelude.{
  ℕ, zero, suc, ◌+◌, ◌^◌, ◌<◌, ◌≡◌, refl, sym, subst, ◌⊎◌, inl, inr, true, false, List, [], ◌∷◌,
  arith, ◌==◌, ==_iff, Bool-cases, bit_or, length, get_or, set, length-set, get_or-set_if,
  lt-length_of_get_elem?, if◌then◌else◌,
}
use rulestone.Prelude.Bits.{bit, bit-bit_or, bit_or-lt}
use rulestone.Types.{Mask, minus_one}
use rulestone.Cateng.MaskArray.{CatSetMask}
use rulestone.Cateng.Tables.{CatSetFilter, FilterTables}
use rulestone.Cateng.Engine.{Run, looked_up, store_mask}
use rulestone.Cateng.Engine.Fired.{Fired, IsOn, on}
use rulestone.Cateng.Engine.Effect.{
  mask_at, IsFull, Applied, open_slots, IsClosed, IsLinked, IsReady, IsSound, Growth, Effect,
  Growth-weaken,
}

pub open_slots-set :
    (xs : List Mask) (i : ℕ) (v : Mask)
    → i < length xs
    → (get_or xs i 0 == minus_one) ≡ false
    → open_slots (set xs i v) + (if v == minus_one then 1 else 0) ≡ open_slots xs
open_slots-set [] i v h p = absurd (omega arith)
open_slots-set (x ∷ xs) zero v h p = ground arith
open_slots-set (x ∷ xs) (suc i) v h p = ground (arith, open_slots-set xs i v)

module _ (t : FilterTables) (Source : CatSetMask → Type 0) where
  -- The write of the mask at the slot `i` of `csm`, before anything is propagated.
  module _ (s : Run) (csm : CatSetMask) (ready : IsReady t s) (linked : IsLinked t csm) where
    abbrev pub new_mask : Mask
    new_mask = bit_or (mask_at s linked.at) csm.mask

    abbrev pub stored : Run
    unfolding store_mask looked_up
    stored = store_mask (looked_up s) linked.at new_mask

    pub in_range : linked.at < length s.masks
    in_range =
        omega
          (arith, ready.room, lt-length_of_get_elem? t.cat_set_filters linked.at linked.is_filter)

    mask_at-stored : (j : ℕ) → mask_at stored j ≡ (if linked.at == j then new_mask else mask_at s j)
    unfolding store_mask looked_up
    mask_at-stored j = get_or-set_if s.masks linked.at j new_mask 0 in_range

    pub stored_self : mask_at stored linked.at ≡ new_mask
    stored_self = ground (arith, mask_at-stored linked.at)

    pub new_mask-lt : new_mask < 2 ^ 64
    new_mask-lt = bit_or-lt 64 _ _ (ready.words linked.at) linked.is_mask

    pub stored-IsReady : IsReady t stored
    unfolding store_mask looked_up
    stored-IsReady = record {
      room = omega (arith, ready.room, length-set s.masks linked.at new_mask);
      words = λ j. ground (arith, mask_at-stored j, new_mask-lt, ready.words j);
    }

    stored-grows : (j b : ℕ) → bit b (mask_at s j) ≡ true → bit b (mask_at stored j) ≡ true
    stored-grows j b p =
        ground
          (arith, mask_at-stored j, ==_iff linked.at j, bit-bit_or b (mask_at s linked.at) csm.mask)

    pub stored-Applied : Applied stored csm
    stored-Applied j b e w p = ground (
      arith,
      linked.index_eq,
      mask_at-stored j,
      ==_iff linked.at j,
      bit-bit_or b (mask_at s linked.at) csm.mask,
    )

    new_bit :
        Fired t Source csm
        → IsSound t Source s
        → (b : ℕ) → b < 64
        → bit b new_mask ≡ true
        → IsOn t Source linked.at b
    new_bit fired p b w h = elim (Bool-cases (bit b (mask_at s linked.at))) [
      | inl old ↦ p.bits linked.at b w old
      | inr fresh ↦
          on fired linked.index_eq (ground (arith, bit-bit_or b (mask_at s linked.at) csm.mask))
    ]

    stored-IsOn :
        Fired t Source csm
        → IsSound t Source s
        → (j b : ℕ) → b < 64
        → bit b (mask_at stored j) ≡ true
        → IsOn t Source j b
    stored-IsOn fired p j b w h = elim (Bool-cases (linked.at == j)) [
      | inl same ↦
          subst (λ k. IsOn t Source k b) ((==_iff linked.at j).0 same)
            (new_bit fired p b w (rw (mask_at-stored j, same) at h))
      | inr differ ↦ p.bits j b w (rw (mask_at-stored j, differ) at h)
    ]

    pub stored-Growth :
        (mask_at s linked.at == minus_one) ≡ false → Growth t Source (Fired t Source csm) s stored
    unfolding store_mask looked_up
    stored-Growth not_full = record {
      ready = stored-IsReady;
      fewer = omega (arith, open_slots-set s.masks linked.at new_mask in_range not_full);
      grows = λ j b w. stored-grows j b;
      keeps = λ r m. m;
      sound = λ fired p. record { bits = stored-IsOn fired p; rules = p.rules };
    }

    -- A slot that the write fills is the one written to.
    pub stored-IsFull :
        (j : ℕ) → IsFull stored j → IsFull s j ⊎ (linked.at ≡ j) × (new_mask ≡ minus_one)
    stored-IsFull j h = elim (Bool-cases (linked.at == j)) [
      | inl same ↦ inr ((==_iff linked.at j).0 same, (rw (mask_at-stored j, same) at h))
      | inr differ ↦ inl (rw (mask_at-stored j, differ) at h)
    ]

    -- A write that fills its slot leaves one open slot fewer.
    pub stored_fewer :
        (mask_at s linked.at == minus_one) ≡ false
        → new_mask ≡ minus_one
        → open_slots stored.masks + 1 ≡ open_slots s.masks
    unfolding store_mask looked_up
    stored_fewer not_full fills = ground (arith, open_slots-set s.masks linked.at new_mask in_range)

    -- The whole effect of a write that does not fill its slot.
    pub stored-Effect :
        (mask_at s linked.at == minus_one) ≡ false
        → (new_mask == minus_one) ≡ false
        → Effect t Source (csm ∷ []) s stored
    stored-Effect not_full stays = record {
      growth =
          Growth-weaken t Source (λ fired. fired csm (Memᴰ.head refl)) (stored-Growth not_full);
      applied = λ c m. subst (Applied stored) (sym (Memᴰ.eq_of_singleton m)) stored-Applied;
      closed = λ j f at h. earlier j f (stored-IsFull j h);
    }
      where
        earlier :
            (j : ℕ) (f : CatSetFilter)
            → IsFull s j ⊎ (linked.at ≡ j) × (new_mask ≡ minus_one)
            → IsFull s j ⊎ IsClosed f stored
        earlier j f (inl old) = inl old
        earlier j f (inr (_, fills)) = cc ((==_iff new_mask minus_one).1 fills)
