-- ===== src/Cateng/Engine/Event.antt =====
-- What an event brings to the tables: the masks of its categories, and those of the negative
-- categories whose default it does not override.
use mathlib.Core.List.{Memᴰ}
use rulestone.Prelude.{Bool, false, ◌||◌, none, some, List, [], ◌∷◌, ◌++◌, if◌then◌else◌}
use rulestone.Prelude.Int.{◌==ℤ◌}
use rulestone.Prelude.Fault.{done}
use rulestone.Types.{Category}
use rulestone.Types.CatMap.{lookup}
use rulestone.Cateng.MaskArray
use rulestone.Cateng.MaskArray.{CatSetMask}
use rulestone.Cateng.Tables.{FilterTables}

-- Does the event have the category?
abbrev pub member : Category → List Category → Bool
member cat [] = false
member cat (c ∷ cs) = c ==ℤ cat || member cat cs

module _ (t : FilterTables) where
  -- The masks that a category brings; none if the tables have nothing for it.
  abbrev pub masks_of : Category → List CatSetMask
  masks_of cat = elim (MaskArray.get t.cat_to_cat_set_mask cat) [
    | done csm_list ↦ csm_list
    | _ ↦ []
  ]

  abbrev pub event_masks : List Category → List CatSetMask
  event_masks [] = []
  event_masks (cat ∷ cats) = masks_of cat ++ event_masks cats

  -- A category with a default of true counts as negated when the event lacks it.
  abbrev pub neg_masks : Category → List CatSetMask
  neg_masks cat = elim (lookup cat t.neg_cats) [ none ↦ [] | some neg_cat ↦ masks_of neg_cat ]

  abbrev pub default_masks : List Category → List Category → List CatSetMask
  default_masks cats [] = []
  default_masks cats (cat ∷ rest) =
      (if member cat cats then [] else neg_masks cat) ++ default_masks cats rest

  abbrev pub brought : List Category → List CatSetMask
  brought cats = event_masks cats ++ default_masks cats t.default_cat_list

  abbrev pub Brings : List Category → CatSetMask → Type 0
  Brings cats csm = Memᴰ csm (brought cats)
