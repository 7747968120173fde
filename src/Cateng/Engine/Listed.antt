-- ===== src/Cateng/Engine/Listed.antt =====
-- The mask lists that the tables hold, from the arrays that they stand in.
use rulestone.Prelude.{
  ℕ, zero, suc, ◌≡◌, subst, inl, inr, some, List, [], ◌∷◌, arith, All, ltb, get_elem?, if-cases,
}
use rulestone.Prelude.Int.{ℤ, pos, negsuc, ltb_ℤ, ◌-ℤ◌}
use rulestone.Prelude.Fault.{done, or_panic, or_panic-eq-done}
use rulestone.Types.{Category, max_category}
use rulestone.Cateng.SliceMap
use rulestone.Cateng.SliceMap.{SliceMap}
use rulestone.Cateng.MaskArray
use rulestone.Cateng.MaskArray.{CatSetMask, CatSetMaskArray}

module _ (P : List CatSetMask → Type 0) where
  done_injective : {x y : List CatSetMask} → done x ≡ done y → x ≡ y
  done_injective h = cc

  at_All :
      (ls : List (List CatSetMask)) (i : ℕ) {l : List CatSetMask}
      → All P ls
      → get_elem? ls i ≡ some l
      → P l
  at_All [] i a h = cc
  at_All (x ∷ xs) zero a h = ground arith
  at_All (x ∷ xs) (suc i) a h = at_All xs i (ground arith) h

  get_at_All :
      (s : SliceMap (List CatSetMask)) (i : ℤ) {l : List CatSetMask}
      → P []
      → All P s.backing
      → SliceMap.get_at [] s i ≡ done l
      → P l
  unfolding SliceMap.get_at
  get_at_All s (negsuc n) p a h = cc
  get_at_All s (pos i) p a h =
      elim (if-cases (ltb i s.len) (or_panic (get_elem? s.backing i)) (done []) h) [
        | inl (inside, e) ↦ at_All s.backing i a (or_panic-eq-done (get_elem? s.backing i) e)
        | inr (outside, e) ↦ subst P (done_injective e) p
      ]

  -- What holds of every list of the two arrays, and of the empty one, holds of what Get returns.
  pub get_All :
      (array : CatSetMaskArray) (cat : Category) {l : List CatSetMask}
      → P []
      → All P array.val0.backing
      → All P array.val1.backing
      → MaskArray.get array cat ≡ done l
      → P l
  unfolding MaskArray.get
  get_All array cat p a b h =
      elim (if-cases (ltb_ℤ cat max_category) (SliceMap.get_at [] array.val0 cat)
        (SliceMap.get_at [] array.val1 (cat -ℤ max_category)) h) [
          | inl (low, e) ↦ get_at_All array.val0 cat p a e
          | inr (high, e) ↦ get_at_All array.val1 (cat -ℤ max_category) p b e
        ]
