-- ===== src/Cateng/Builder.antt =====
-- cateng/builder.go: FilterBuilder and the registration of sets, categories and rules.
-- A *CatSetRec is an address in `heap`, so that the list, the map and the callers share a record.
-- CatFilter, a record of one AndOrSet, is read as that set, and its zero value as `none`.
pub mod Compile
pub mod Rules
pub mod Assign
pub mod Frequency
pub mod Optimise
pub mod Inline
pub mod Build
use rulestone.Prelude.{
  ℕ, zero, suc, ◌+◌, Option, none, some, List, [], ◌∷◌, ◌++◌, Bool, true, false, length, get_elem?,
  set, if◌then◌else◌,
}
use rulestone.Prelude.Int.{ℤ, pos, negsuc, wrap32, ◌+ℤ◌, neg}
use rulestone.Prelude.Fault.{Outcome, done, panic, or_panic, ◌>>=◌}
use rulestone.Types.{Category, max_category}
use rulestone.Types.CatMap.{lookup, put}
use rulestone.Types.AndOrSet.{Hashmap, OrSet, AndOrSet, set_element}
use rulestone.Immutable.Set
use rulestone.Immutable.Set.{Hashset}
use rulestone.Condition.Rule.{RuleRec}
use rulestone.Cateng.MaskArray.{CatSetMask}
use rulestone.Cateng.Tables.{RuleFilterRec, BuilderMetrics}

pub record CatFilterSetType (h : Hashset) : Type 0 where
  pub cat_set_index1 : Category
  pub and_set : AndOrSet h

pub record CatSetRec (h : Hashset) : Type 0 where
  pub cat_filter_set : CatFilterSetType h
  pub rule_set : List RuleFilterRec
  pub cat_set_masks : List CatSetMask

pub record Options : Type 0 where
  pub or_optimization_freq_threshold : ℕ
  pub and_optimization_freq_threshold : ℕ
  pub verbose : Bool

pub record FilterBuilder (h : Hashset) (m : Hashmap) (F : Type 0) : Type 0 where
  pub heap : List (CatSetRec h)
  pub cat_filter_sets : List (Option ℕ)
  pub cat_set_map : m.Map (AndOrSet h) ℕ
  pub neg_cats : List (Category × Category)
  pub rule_recs : List (RuleRec F)
  pub options : Options
  pub metrics : BuilderMetrics

-- -csr.CatSetIndex1 - 1 and CatSetIndex1 - 1 as indices: below zero they panic.
abbrev pub index_of : Category → Outcome ℕ
index_of (pos (suc i)) = done i
index_of (pos zero) = panic
index_of (negsuc n) = panic

abbrev pub set_index_of : Category → Outcome ℕ
set_index_of (negsuc i) = done i
set_index_of (pos n) = panic

module _ {h : Hashset} (m : Hashmap) {F : Type 0} where
  -- *csr
  unfoldable pub read : FilterBuilder h m F → ℕ → Outcome (CatSetRec h)
  read fb csr = or_panic (get_elem? fb.heap csr)

  unfoldable pub write : FilterBuilder h m F → ℕ → CatSetRec h → FilterBuilder h m F
  write fb csr v = record fb { heap = set fb.heap csr v }

  unfoldable pub new_cat_set_rec : FilterBuilder h m F → AndOrSet h → CatSetRec h
  new_cat_set_rec fb and_set = record {
    cat_filter_set = record {
      cat_set_index1 = wrap32 (pos (length fb.cat_filter_sets + 1));
      and_set = and_set;
    };
    rule_set = [];
    cat_set_masks = [];
  }

  unfoldable pub add_and_set : FilterBuilder h m F → AndOrSet h → ℕ × FilterBuilder h m F
  unfolding new_cat_set_rec
  add_and_set fb and_set =
      let result = length fb.heap in
      (
        result,
        record fb {
          heap = fb.heap ++ new_cat_set_rec fb and_set ∷ [];
          cat_filter_sets = fb.cat_filter_sets ++ some result ∷ [];
          cat_set_map = m.put set_element fb.cat_set_map and_set result;
        },
      )

  -- registerAndSet: the record of a set, a new one if the set has none.
  unfoldable pub register_and_set : FilterBuilder h m F → AndOrSet h → ℕ × FilterBuilder h m F
  unfolding add_and_set
  register_and_set fb and_set = elim (m.get set_element fb.cat_set_map and_set) [
    | some result ↦ (result, fb)
    | none ↦ add_and_set fb and_set
  ]

  unfoldable pub register_negative_cat :
      FilterBuilder h m F → Category → Category × FilterBuilder h m F
  unfolding lookup put ◌+ℤ◌
  register_negative_cat fb cat = elim (lookup cat fb.neg_cats) [
    | some neg_cat ↦ (neg_cat, fb)
    | none ↦
        let neg_cat = wrap32 (cat +ℤ max_category) in
        (neg_cat, record fb { neg_cats = put cat neg_cat fb.neg_cats })
  ]

  -- fb.CatFilterSets[i] = entry
  unfoldable pub store_entry : FilterBuilder h m F → ℕ → Option ℕ → Outcome (FilterBuilder h m F)
  store_entry fb i entry = do
    _ ← or_panic (get_elem? fb.cat_filter_sets i)
    done (record fb { cat_filter_sets = set fb.cat_filter_sets i entry })

  -- The part of replaceFilterSet for two sets that differ: a fresh record takes the old one's place.
  unfoldable pub replace_with :
      FilterBuilder h m F → AndOrSet h → AndOrSet h → Outcome (FilterBuilder h m F)
  unfolding read store_entry
  replace_with fb set with_set = do
    csr ← or_panic (m.get set_element fb.cat_set_map set)
    old ← read fb csr
    i ← index_of old.cat_filter_set.cat_set_index1
    let new_csr = length fb.heap
    let made : CatSetRec h = record old {
      cat_filter_set = record old.cat_filter_set { and_set = with_set };
    }
    stored ← store_entry (record fb { heap = fb.heap ++ made ∷ [] }) i (some new_csr)
    done (record stored {
      cat_set_map =
          m.put set_element (m.remove set_element stored.cat_set_map set) with_set new_csr;
    })

  -- replaceFilterSet; its callers do not use the Boolean that it returns.
  unfoldable pub replace_filter_set :
      FilterBuilder h m F → AndOrSet h → AndOrSet h → Outcome (FilterBuilder h m F)
  unfolding replace_with Set.equals
  replace_filter_set fb set with_set =
      if Set.equals h set with_set then done fb else replace_with fb set with_set

  unfoldable pub unregister_filter_set :
      FilterBuilder h m F → AndOrSet h → Outcome (FilterBuilder h m F)
  unfolding read store_entry
  unregister_filter_set fb set = do
    csr ← or_panic (m.get set_element fb.cat_set_map set)
    old ← read fb csr
    i ← index_of old.cat_filter_set.cat_set_index1
    stored ← store_entry fb i none
    done (record stored { cat_set_map = m.remove set_element stored.cat_set_map set })
