-- ===== src/Cateng/Engine/Effect.antt =====
-- What a run of applyCatSetMasks over a list of masks does to the state of a match, as a relation
-- between the state before and the state after, with its composition.
use mathlib.Core.List.{Memᴰ}
use mathlib.Core.List.Memᴰ
use rulestone.Prelude.{
  ℕ, suc, ◌^◌, ◌≤◌, ◌<◌, ◌≡◌, refl, ◌⊎◌, inl, inr, true, List, [], ◌∷◌, ◌++◌, arith, ◌==◌, length,
  get_or, if◌then◌else◌,
}
use rulestone.Prelude.Int.{pos}
use rulestone.Prelude.Bits.{bit, all_ones, holds_below, holds_below-at}
use rulestone.Types.{Mask, minus_one}
use rulestone.Cateng.MaskArray.{CatSetMask}
use rulestone.Cateng.Tables.{RuleFilterRec, CatSetFilter, FilterTables}
use rulestone.Cateng.Engine.{Run}
use rulestone.Cateng.Engine.Fired.{IsFilter, Fired, IsOn, IsReported}

abbrev pub mask_at : Run → ℕ → Mask
mask_at s i = get_or s.masks i 0

abbrev pub IsFull : Run → ℕ → Type 0
IsFull s i = mask_at s i ≡ minus_one

-- Every bit of the mask is set at its slot.
abbrev pub Applied : Run → CatSetMask → Type 0
Applied s csm =
    (i b : ℕ)
    → csm.index1 ≡ pos (suc i)
    → b < 64
    → bit b csm.mask ≡ true
    → bit b (mask_at s i) ≡ true

-- The number of slots that are not full.
abbrev pub open_slots : List Mask → ℕ
open_slots [] = 0
open_slots (v ∷ vs) = if v == minus_one then open_slots vs else suc (open_slots vs)

ones_table : holds_below (λ b. bit b minus_one) 64 ≡ true
unfolding holds_below bit
ones_table = refl

pub bit-minus_one : (b : ℕ) → b < 64 → bit b minus_one ≡ true
bit-minus_one b h = holds_below-at (λ b. bit b minus_one) 64 b h ones_table

pub eq-minus_one : (v : Mask) → v < 2 ^ 64 → ((b : ℕ) → b < 64 → bit b v ≡ true) → v ≡ minus_one
eq-minus_one v w h = omega (arith, all_ones 64 v w h)

-- The filter's synthetic categories are applied and its rules reported.
pub record IsClosed (f : CatSetFilter) (s : Run) : Type 0 where
  pub applied : (csm : CatSetMask) → Memᴰ csm f.cat_set_masks → Applied s csm
  pub reported : (r : RuleFilterRec) → Memᴰ r f.rule_set → Memᴰ r.rule_id s.result

module _ (t : FilterTables) where
  -- The mask is a word, and names a slot that has a filter.
  pub record IsLinked (csm : CatSetMask) : Type 0 where
    pub at : ℕ
    pub filter : CatSetFilter
    pub index_eq : csm.index1 ≡ pos (suc at)
    pub is_filter : IsFilter t at filter
    pub is_mask : csm.mask < 2 ^ 64

  -- The synthetic categories of every filter are linked.
  pub record AreLinked : Type 0 where
    pub synthetic :
        (i : ℕ) (f : CatSetFilter)
        → IsFilter t i f
        → (csm : CatSetMask) → Memᴰ csm f.cat_set_masks
        → IsLinked csm

  pub record IsReady (s : Run) : Type 0 where
    pub room : length t.cat_set_filters ≤ length s.masks
    pub words : (i : ℕ) → mask_at s i < 2 ^ 64

  module _ (Source : CatSetMask → Type 0) where
    pub record IsSound (s : Run) : Type 0 where
      pub bits : (i b : ℕ) → b < 64 → bit b (mask_at s i) ≡ true → IsOn t Source i b
      pub rules : (r : ℕ) → Memᴰ r s.result → IsReported t Source r

    -- Bits and results only grow, and stay justified if `Allowed` holds.
    pub record Growth (Allowed : Type 0) (s s' : Run) : Type 0 where
      pub ready : IsReady s'
      pub fewer : open_slots s'.masks ≤ open_slots s.masks
      pub grows : (i b : ℕ) → b < 64 → bit b (mask_at s i) ≡ true → bit b (mask_at s' i) ≡ true
      pub keeps : (r : ℕ) → Memᴰ r s.result → Memᴰ r s'.result
      pub sound : Allowed → IsSound s → IsSound s'

    abbrev pub AllFired : List CatSetMask → Type 0
    AllFired csm_list = (csm : CatSetMask) → Memᴰ csm csm_list → Fired t Source csm

    -- The masks are applied, and each slot that they fill is closed.
    pub record Effect (csm_list : List CatSetMask) (s s' : Run) : Type 0 where
      pub growth : Growth (AllFired csm_list) s s'
      pub applied : (csm : CatSetMask) → Memᴰ csm csm_list → Applied s' csm
      pub closed :
          (i : ℕ) (f : CatSetFilter) → IsFilter t i f → IsFull s' i → IsFull s i ⊎ IsClosed f s'

    pub Growth-trans :
        {A B C : Type 0} {s s₁ s₂ : Run}
        → (C → A)
        → (C → IsSound s₁ → B)
        → Growth A s s₁
        → Growth B s₁ s₂
        → Growth C s s₂
    Growth-trans first later g h = record {
      ready = h.ready;
      fewer = omega (arith, g.fewer, h.fewer);
      grows = λ i b w p. h.grows i b w (g.grows i b w p);
      keeps = λ r m. h.keeps r (g.keeps r m);
      sound = λ c p. let q = g.sound (first c) p in h.sound (later c q) q;
    }

    pub Growth-weaken : {A C : Type 0} {s s' : Run} → (C → A) → Growth A s s' → Growth C s s'
    Growth-weaken first g = record {
      ready = g.ready;
      fewer = g.fewer;
      grows = g.grows;
      keeps = g.keeps;
      sound = λ c. g.sound (first c);
    }

    pub IsFull-stays : {A : Type 0} {s s' : Run} (i : ℕ) → Growth A s s' → IsFull s i → IsFull s' i
    IsFull-stays {s = s} {s' = s'} i g full =
        eq-minus_one (mask_at s' i) (g.ready.words i) λ b w. g.grows i b w (subst_bit b w)
      where
        subst_bit : (b : ℕ) → b < 64 → bit b (mask_at s i) ≡ true
        subst_bit b w = rw full (bit-minus_one b w)

    pub Applied-later :
        {A : Type 0} {s s' : Run} (csm : CatSetMask)
        → Growth A s s'
        → Applied s csm
        → Applied s' csm
    Applied-later csm g h = λ i b e w p. g.grows i b w (h i b e w p)

    pub IsClosed-later :
        {A : Type 0} {s s' : Run} {f : CatSetFilter} → Growth A s s' → IsClosed f s → IsClosed f s'
    IsClosed-later g h = record {
      applied = λ csm m. Applied-later csm g (h.applied csm m);
      reported = λ r m. g.keeps r.rule_id (h.reported r m);
    }

    pub Effect-nil : {s : Run} → IsReady s → Effect [] s s
    Effect-nil ready = record {
      growth = record {
        ready = ready;
        fewer = omega arith;
        grows = λ i b w p. p;
        keeps = λ r m. m;
        sound = λ _ p. p;
      };
      applied = λ csm m. absurd (Memᴰ.not-nil m);
      closed = λ i f at full. inl full;
    }

    pub Effect-append :
        (xs ys : List CatSetMask) {s s₁ s₂ : Run}
        → Effect xs s s₁
        → Effect ys s₁ s₂
        → Effect (xs ++ ys) s s₂
    Effect-append xs ys {s} {s₁} {s₂} e h = record {
      growth =
          Growth-trans (λ fired c m. fired c (Memᴰ.append_left ys m))
            (λ fired _ c m. fired c (Memᴰ.append_right xs m)) e.growth h.growth;
      applied = λ c m. both c (Memᴰ.append_cases xs m);
      closed = λ i f at full. later i f (h.closed i f at full) at;
    }
      where
        both : (c : CatSetMask) → Memᴰ c xs ⊎ Memᴰ c ys → Applied s₂ c
        both c (inl m) = Applied-later c h.growth (e.applied c m)
        both c (inr m) = h.applied c m

        later :
            (i : ℕ) (f : CatSetFilter)
            → IsFull s₁ i ⊎ IsClosed f s₂
            → IsFilter t i f
            → IsFull s i ⊎ IsClosed f s₂
        later i f (inr c) at = inr c
        later i f (inl full) at = elim (e.closed i f at full) [
          | inl before ↦ inl before
          | inr c ↦ inr (IsClosed-later h.growth c)
        ]

    pub Effect-cons :
        {csm : CatSetMask} {csm_list : List CatSetMask} {s s₁ s₂ : Run}
        → Effect (csm ∷ []) s s₁
        → Effect csm_list s₁ s₂
        → Effect (csm ∷ csm_list) s s₂
    Effect-cons {csm} {csm_list} e h = Effect-append (csm ∷ []) csm_list e h
