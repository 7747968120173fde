-- ===== src/Cateng/Engine.antt =====
-- cateng/category_engine.go: matching an event's categories against the tables.
pub mod Fired
pub mod Effect
mod Store
mod Branches
mod Propagation
mod Loop
pub mod Event
mod Fixpoint
pub mod WellFormed
pub mod Listed
mod Stages
pub mod Correct
use rulestone.Prelude.{
  ℕ, zero, suc, ◌+◌, Bool, true, false, Option, none, some, List, [], ◌∷◌, ◌++◌, map, bit_or, ltb,
  ◌==◌, length, get_elem?, get_or, set, replicate, if◌then◌else◌,
}
use rulestone.Prelude.Int.{ℤ, pos, negsuc, ◌==ℤ◌}
use rulestone.Prelude.Fault.{Outcome, done, panic, out_of_fuel, or_panic, ◌>>=◌}
use rulestone.Types.{Category, Mask, minus_one, bump}
use rulestone.Types.CatMap.{lookup}
use rulestone.Cateng.MaskArray
use rulestone.Cateng.MaskArray.{CatSetMask}
use rulestone.Cateng.Tables.{RuleFilterRec, CatSetFilter, FilterTables}

pub record Metrics : Type 0 where
  pub num_bit_mask_checks : ℕ
  pub num_mask_array_lookups : ℕ
  pub num_bit_mask_matches : ℕ

-- What a call of MatchEvent writes to: the mask array, the result and the engine's metrics.
pub record Run : Type 0 where
  pub masks : List Mask
  pub result : List ℕ
  pub metrics : Metrics

-- csm.Index1-1 as an index: below zero it panics.
abbrev pub slot : Category → Outcome ℕ
slot (pos (suc i)) = done i
slot (pos zero) = panic
slot (negsuc n) = panic

pub looked_up : Run → Run
looked_up s = record s {
  metrics = record s.metrics { num_mask_array_lookups = bump s.metrics.num_mask_array_lookups };
}

pub store_mask : Run → ℕ → Mask → Run
store_mask s i v = record s {
  masks = set s.masks i v;
  metrics = record s.metrics { num_bit_mask_checks = bump s.metrics.num_bit_mask_checks };
}

pub count_match : Run → Run
count_match s = record s {
  metrics = record s.metrics { num_bit_mask_matches = bump s.metrics.num_bit_mask_matches };
}

pub report : List RuleFilterRec → Run → Run
report rules s = record s { result = s.result ++ map (λ (r : RuleFilterRec). r.rule_id) rules }

-- The loops run their body over a list from left to right.
pub each {ℓ κ} : {A : Type ℓ} {S : Type κ} → (A → S → Outcome S) → List A → S → Outcome S
each body [] s = done s
each body (x ∷ xs) s = body x s >>= each body xs

module _ (t : FilterTables) where
  -- The branch for a completed set; `recurse` is the call for its synthetic categories.
  pub complete : (List CatSetMask → Run → Outcome Run) → ℕ → Run → Outcome Run
  unfolding count_match report
  complete recurse i s = do
    entry ← or_panic (get_elem? t.cat_set_filters i)
    filter ← or_panic entry
    let matched = count_match s
    s' ←
        (if ltb 0 (length filter.cat_set_masks)
          then recurse filter.cat_set_masks matched
          else done matched)
    done (report filter.rule_set s')

  -- The body of the loop of applyCatSetMasks, once the mask `v` at slot `i` is read.
  pub apply_to : (List CatSetMask → Run → Outcome Run) → CatSetMask → ℕ → Mask → Run → Outcome Run
  unfolding complete store_mask looked_up
  apply_to recurse csm i v s =
      let new_v = bit_or v csm.mask in
      if v == minus_one
      then done (looked_up s)
      else if new_v == minus_one
      then complete recurse i (store_mask (looked_up s) i new_v)
      else done (store_mask (looked_up s) i new_v)

  pub apply_mask : (List CatSetMask → Run → Outcome Run) → CatSetMask → Run → Outcome Run
  unfolding apply_to
  apply_mask recurse csm s = do
    i ← slot csm.index1
    v ← or_panic (get_elem? s.masks i)
    apply_to recurse csm i v s

  -- The fuel bounds the depth of the calls.
  pub apply_cat_set_masks : ℕ → List CatSetMask → Run → Outcome Run
  unfolding apply_mask each
  apply_cat_set_masks zero csm_list s = out_of_fuel
  apply_cat_set_masks (suc fuel) csm_list s =
      each (apply_mask (apply_cat_set_masks fuel)) csm_list s

  -- A category with a default of true that the event has is noted.
  pub note_default : Category → List Bool → Outcome (List Bool)
  unfolding lookup
  note_default cat flags = elim (lookup cat t.default_categories) [
    | none ↦ done flags
    | some i ↦ if ltb i (length flags) then done (set flags i true) else panic
  ]

  pub visit_category : ℕ → Category → List Bool × Run → Outcome (List Bool × Run)
  unfolding note_default apply_cat_set_masks MaskArray.get
  visit_category fuel cat (flags, s) = do
    noted ← note_default cat flags
    csm_list ← MaskArray.get t.cat_to_cat_set_mask cat
    s' ← apply_cat_set_masks fuel csm_list s
    done (noted, s')

  pub apply_default : ℕ → Category → Run → Outcome Run
  unfolding apply_cat_set_masks MaskArray.get lookup
  apply_default fuel cat s = do
    neg_cat ← or_panic (lookup cat t.neg_cats)
    csm_list ← MaskArray.get t.cat_to_cat_set_mask neg_cat
    apply_cat_set_masks fuel csm_list s

  -- The loop over DefaultCatList from its index `i` on.
  pub process_defaults : ℕ → List Bool → ℕ → List Category → Run → Outcome Run
  unfolding apply_default
  process_defaults fuel flags i [] s = done s
  process_defaults fuel flags i (cat ∷ cats) s = do
    noted ← or_panic (get_elem? flags i)
    s' ← (if noted then done s else apply_default fuel cat s)
    process_defaults fuel flags (i + 1) cats s'

  pub num_masks : ℕ
  num_masks = length t.neg_cats + length t.cat_set_filters

  pub start : Metrics → Run
  unfolding num_masks
  start metrics = record { masks = replicate num_masks 0; result = []; metrics = metrics }

  -- Each call below completes one more slot, so the depth stays below the number of slots.
  pub match_fuel : ℕ
  unfolding num_masks
  match_fuel = suc num_masks

  pub run_event : Metrics → List Category → Outcome Run
  unfolding start match_fuel visit_category process_defaults each
  run_event metrics cats = do
    (flags, s) ←
        each (visit_category match_fuel) cats
          (replicate (length t.default_categories) false, start metrics)
    process_defaults match_fuel flags 0 t.default_cat_list s

pub record CategoryEngine : Type 0 where
  pub filter_tables : FilterTables
  pub metrics : Metrics

-- The engine keeps the metrics; the rules that match are returned.
unfoldable pub match_event : CategoryEngine → List Category → Outcome (CategoryEngine × List ℕ)
unfolding run_event
match_event f cats = do
  s ← run_event f.filter_tables f.metrics cats
  done (record f { metrics = s.metrics }, s.result)
