-- ===== src/Cateng/Builder/Assign.antt =====
-- cateng/builder.go: the tables of a builder. computeCatToRules shifts one bit along the or-sets of a
-- set, and the first or-set gets all the bits that are left.
pub mod Cover
use rulestone.Prelude.{
  ℕ, zero, suc, ◌+◌, Option, none, some, List, [], ◌∷◌, ◌++◌, length, map, get_elem?, if◌then◌else◌,
}
use rulestone.Prelude.Int.{ℤ, pos, is_neg, neg}
use rulestone.Prelude.Fault.{Outcome, done, panic, or_panic, ◌>>=◌}
use rulestone.Types.{Category, Mask, shift_left_one, negate}
use rulestone.Types.CatMap.{lookup, put}
use rulestone.Types.AndOrSet.{Hashmap, OrSet, AndOrSet, category_element, set_element}
use rulestone.Immutable.Hash.{Digest}
use rulestone.Immutable.Set
use rulestone.Immutable.Set.{Hashset}
use rulestone.Condition.Rule.{RuleRec}
use rulestone.Cateng.MaskArray
use rulestone.Cateng.MaskArray.{CatSetMask, CatSetMaskArray}
use rulestone.Cateng.Tables.{CatSetFilter, RuleFilterRec, FilterTables}
use rulestone.Cateng.Builder.{CatSetRec, FilterBuilder, read, write, set_index_of}

-- The masks of the or-sets after the first, from `bit_mask` on, and the mask that is left for it.
unfoldable pub tail_masks : {A : Type 0} → Mask → List A → List (A × Mask) × Mask
unfolding shift_left_one
tail_masks bit_mask [] = ([], bit_mask)
tail_masks bit_mask (or_set ∷ or_sets) =
    let (assigned, last) = tail_masks (shift_left_one bit_mask) or_sets in
    ((or_set, bit_mask) ∷ assigned, last)

-- The or-sets of a set in the order of the calls of setCatSetMask: the first one comes last.
unfoldable pub assign_masks : {A : Type 0} → List A → List (A × Mask)
unfolding tail_masks negate
assign_masks [] = []
assign_masks (head ∷ tail) =
    let (assigned, last) = tail_masks 1 tail in assigned ++ (head, negate last) ∷ []

-- result.DefaultCategories[cat] = len(result.DefaultCategories) over a range of distinct keys.
unfoldable pub number_from : ℕ → List Category → List (Category × ℕ)
number_from n [] = []
number_from n (cat ∷ cats) = (cat, n) ∷ number_from (n + 1) cats

rule_rec : {F : Type 0} → RuleRec F → RuleFilterRec
rule_rec r = record { rule_index = r.rule_index; rule_id = r.rule.rule_id }

abbrev Tables : Hashset → Hashmap → Type 0 → Type 0
Tables h m F = CatSetMaskArray × FilterBuilder h m F

module _ {h : Hashset} (m : Hashmap) (d : Digest) {F : Type 0} where
  -- The record of fb.CatFilterSets[i], which is followed although it may be nil.
  unfoldable pub entry_at : FilterBuilder h m F → ℕ → Outcome ℕ
  entry_at fb i = or_panic (get_elem? fb.cat_filter_sets i) >>= or_panic

  -- A synthetic category lists the mask at its set, another one in the array.
  unfoldable pub set_cat_set_mask :
      Category → Mask → Category → Tables h m F → Outcome (Tables h m F)
  unfolding entry_at read write MaskArray.get MaskArray.set
  set_cat_set_mask index1 mask cat (result, fb) =
      let cat_set_mask : CatSetMask = record { mask = mask; index1 = index1 } in
      if is_neg cat
      then (do
        i ← set_index_of cat
        csr ← entry_at fb i
        v ← read m fb csr
        done (
          result,
          write m fb csr (record v { cat_set_masks = v.cat_set_masks ++ cat_set_mask ∷ [] }),
        ))
      else (do
        masks ← MaskArray.get result cat
        result' ← MaskArray.set result cat (masks ++ cat_set_mask ∷ [])
        done (result', fb))

  unfoldable pub set_masks : Category → Mask → List Category → Tables h m F → Outcome (Tables h m F)
  unfolding set_cat_set_mask
  set_masks index1 mask [] t = done t
  set_masks index1 mask (ct ∷ cats) t =
      set_cat_set_mask index1 mask ct t >>= set_masks index1 mask cats

  unfoldable pub set_assigned :
      Category → List (OrSet h × Mask) → Tables h m F → Outcome (Tables h m F)
  unfolding set_masks Set.to_slice
  set_assigned index1 [] t = done t
  set_assigned index1 ((or_set, mask) ∷ assigned) t =
      set_masks index1 mask (Set.to_slice h d or_set) t >>= set_assigned index1 assigned

  unfoldable pub assign_sets : List (Option ℕ) → Tables h m F → Outcome (Tables h m F)
  unfolding set_assigned assign_masks read Set.to_slice
  assign_sets [] t = done t
  assign_sets (none ∷ entries) t = assign_sets entries t
  assign_sets (some csr ∷ entries) (result, fb) = do
    v ← read m fb csr
    t ←
        set_assigned v.cat_filter_set.cat_set_index1
          (assign_masks (Set.to_slice h d v.cat_filter_set.and_set)) (result, fb)
    assign_sets entries t

  unfoldable pub compute_cat_to_rules : FilterBuilder h m F → Outcome (Tables h m F)
  unfolding assign_sets MaskArray.empty
  compute_cat_to_rules fb = assign_sets fb.cat_filter_sets (MaskArray.empty, fb)

  unfoldable pub filter_of : FilterBuilder h m F → Option ℕ → Outcome (Option CatSetFilter)
  unfolding read
  filter_of fb none = done none
  filter_of fb (some csr) = do
    v ← read m fb csr
    done (
        some (record {
          cat_set_index1 = v.cat_filter_set.cat_set_index1;
          rule_set = v.rule_set;
          cat_set_masks = v.cat_set_masks;
        }))

  unfoldable pub filters_of :
      FilterBuilder h m F → List (Option ℕ) → Outcome (List (Option CatSetFilter))
  unfolding filter_of
  filters_of fb [] = done []
  filters_of fb (entry ∷ entries) = do
    f ← filter_of fb entry
    fs ← filters_of fb entries
    done (f ∷ fs)

  -- buildFilterTables; `order` is the order in which Go ranges over the map of negative categories.
  unfoldable pub build_filter_tables : List Category → FilterBuilder h m F → Outcome FilterTables
  unfolding compute_cat_to_rules filters_of rule_rec number_from
  build_filter_tables order fb = do
    (array, fb') ← compute_cat_to_rules fb
    filters ← filters_of fb' fb'.cat_filter_sets
    done (record {
      cat_to_cat_set_mask = array;
      cat_set_filters = filters;
      builder_metrics = fb'.metrics;
      rule_recs = map rule_rec fb'.rule_recs;
      neg_cats = fb'.neg_cats;
      default_categories = number_from 0 order;
      default_cat_list = order;
    })
