-- ===== src/Cateng/MaskArray.antt =====
-- cateng/builder.go: CatSetMaskArray, the mask lists by category. Categories below MaxCategory and
-- the negative ones above it have an array each.
use rulestone.Prelude.{List, [], if◌then◌else◌}
use rulestone.Prelude.Int.{ltb_ℤ, ◌-ℤ◌}
use rulestone.Prelude.Fault.{Outcome, done, ◌>>=◌}
use rulestone.Types.{Category, Mask, max_category}
use rulestone.Cateng.SliceMap
use rulestone.Cateng.SliceMap.{SliceMap}

pub record CatSetMask : Type 0 where
  pub mask : Mask
  pub index1 : Category

-- A nil slice of masks is the empty list: the callers loop over both alike.
pub record CatSetMaskArray : Type 0 where
  pub val0 : SliceMap (List CatSetMask)
  pub val1 : SliceMap (List CatSetMask)

unfoldable pub empty : CatSetMaskArray
unfolding SliceMap.empty
empty = record { val0 = SliceMap.empty []; val1 = SliceMap.empty [] }

unfoldable pub get : CatSetMaskArray → Category → Outcome (List CatSetMask)
unfolding SliceMap.get_at ◌-ℤ◌
get array index =
    if ltb_ℤ index max_category
    then SliceMap.get_at [] array.val0 index
    else SliceMap.get_at [] array.val1 (index -ℤ max_category)

unfoldable pub set : CatSetMaskArray → Category → List CatSetMask → Outcome CatSetMaskArray
unfolding SliceMap.set_at ◌-ℤ◌
set array index masks =
    if ltb_ℤ index max_category
    then (SliceMap.set_at [] array.val0 index masks >>= λ v. done (record array { val0 = v }))
    else (SliceMap.set_at [] array.val1 (index -ℤ max_category) masks >>= λ v.
        done (record array { val1 = v }))
