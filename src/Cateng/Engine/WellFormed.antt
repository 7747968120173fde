-- ===== src/Cateng/Engine/WellFormed.antt =====
-- Tables that fit together, and the reads from them.
use mathlib.Core.List.{Memᴰ}
use rulestone.Prelude.{
  ℕ, ◌-◌, ◌<◌, ◌≡◌, inl, inr, false, some, List, [], arith, Bool-cases, ltb, length, get_elem?,
  get_or, get_elem?-eq-get_or, tests,
}
use rulestone.Prelude.Int.{pos, negsuc, is_neg, ltb_ℤ, ◌-ℤ◌}
use rulestone.Prelude.Fault.{done}
use rulestone.Types.{Category}
use rulestone.Types.CatMap.{lookup}
use rulestone.Cateng.SliceMap
use rulestone.Cateng.MaskArray
use rulestone.Cateng.MaskArray.{CatSetMask}
use rulestone.Cateng.Tables.{FilterTables}
use rulestone.Cateng.Engine.Effect.{IsLinked, AreLinked}

-- The tables fit together: masks name slots that have filters, the numbers of the categories with
-- a default are their places in the list, and each of these has a negative category.
pub record IsWellFormed (t : FilterTables) : Type 0 where
  pub links : AreLinked t
  pub listed :
      (cat : Category) (csm_list : List CatSetMask)
      → MaskArray.get t.cat_to_cat_set_mask cat ≡ done csm_list
      → (csm : CatSetMask) → Memᴰ csm csm_list
      → IsLinked t csm
  pub array0 : SliceMap.IsValid [] t.cat_to_cat_set_mask.val0
  pub array1 : SliceMap.IsValid [] t.cat_to_cat_set_mask.val1
  pub numbers_bound :
      (cat : Category) (i : ℕ)
      → lookup cat t.default_categories ≡ some i
      → i < length t.default_categories
  pub numbered :
      (cat : Category) (i : ℕ)
      → get_elem? t.default_cat_list i ≡ some cat
      → lookup cat t.default_categories ≡ some i
  pub numbers_differ :
      (cat other : Category) (i : ℕ)
      → lookup cat t.default_categories ≡ some i
      → lookup other t.default_categories ≡ some i
      → cat ≡ other
  pub negated :
      (cat : Category) (i : ℕ)
      → get_elem? t.default_cat_list i ≡ some cat
      → (neg_cat : Category) × (lookup cat t.neg_cats ≡ some neg_cat) × (is_neg neg_cat ≡ false)

above_max :
    (n : ℕ)
    → ltb_ℤ (pos n) (pos 1000000000) ≡ false
    → pos n -ℤ pos 1000000000 ≡ pos (n - 1000000000)
unfolding ◌-ℤ◌
above_max n h = ground arith

get_at_total :
    (s : SliceMap.SliceMap (List CatSetMask)) (n : ℕ)
    → SliceMap.IsValid [] s
    → (l : List CatSetMask) × (SliceMap.get_at [] s (pos n) ≡ done l)
unfolding SliceMap.get_at
get_at_total s n valid = elim (Bool-cases (ltb n s.len)) [
  | inl inside ↦ (
    get_or s.backing n [],
    simp (inside, get_elem?-eq-get_or s.backing n [] (omega (tests, valid.fits))),
  )
  | inr outside ↦ ([], rw outside)
]

module _ (t : FilterTables) (wf : IsWellFormed t) where
  pub get_total :
      (cat : Category)
      → is_neg cat ≡ false
      → (l : List CatSetMask) × (MaskArray.get t.cat_to_cat_set_mask cat ≡ done l)
  unfolding MaskArray.get
  get_total (negsuc n) h = cc
  get_total (pos n) h = elim (Bool-cases (ltb_ℤ (pos n) (pos 1000000000))) [
    | inl low ↦ let (l, e) = get_at_total t.cat_to_cat_set_mask.val0 n wf.array0 in (l, rw low e)
    | inr high ↦
        let (l, e) = get_at_total t.cat_to_cat_set_mask.val1 (n - 1000000000) wf.array1 in
        (l, rw (high, above_max n high) e)
  ]
