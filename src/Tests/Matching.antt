-- ===== src/Tests/Matching.antt =====
-- cateng/category_engine.go on the tables of one rule: category 1 and not category 2.
use mathlib.Core.List.{Memᴰ}
use mathlib.Core.List.Memᴰ
use rulestone.Prelude.{
  ℕ, zero, suc, ◌≡◌, ◌≤◌, ◌^◌, ◌-◌, ◌==◌, ◌∙◌, sym, ap, subst, get_or, get_elem?, if◌then◌else◌,
  refl, ◌↔◌, false, some, List, [], ◌∷◌, arith,
}
use rulestone.Prelude.Int.{pos, negsuc, is_neg}
use rulestone.Prelude.Fault.{done}
use rulestone.Types.{Category}
use rulestone.Types.CatMap.{lookup}
use rulestone.Cateng.SliceMap
use rulestone.Cateng.SliceMap.{SliceMap, set_at, entry}
use rulestone.Cateng.SliceMap.Laws.{entry-set_at}
use rulestone.Cateng.MaskArray.{CatSetMask}
use rulestone.Cateng.Tables.{CatSetFilter, FilterTables}
use rulestone.Cateng.Engine.{CategoryEngine, match_event}
use rulestone.Cateng.Engine.Effect.{IsLinked}
use rulestone.Cateng.Engine.Event.{Brings}
use rulestone.Cateng.Engine.Fired.{IsReported, IsFilter}
use rulestone.Cateng.Engine.Listed.{get_All}
use rulestone.Cateng.Engine.WellFormed.{IsWellFormed}
use rulestone.Cateng.Engine.Correct.{match_event-refines}

-- The or-set of category 1 has the lowest bit, that of the negative category the rest.
abbrev first_mask : CatSetMask
first_mask = record { mask = 1; index1 = pos 1 }

abbrev rest_mask : CatSetMask
rest_mask = record { mask = 2 ^ 64 - 2; index1 = pos 1 }

abbrev only_filter : CatSetFilter
only_filter = record {
  cat_set_index1 = pos 1;
  rule_set = record { rule_index = pos 0; rule_id = 7 } ∷ [];
  cat_set_masks = [];
}

abbrev pub tables : FilterTables
tables = record {
  cat_to_cat_set_mask = record {
    val0 = record { backing = [] ∷ (first_mask ∷ []) ∷ []; len = 2 };
    val1 = record { backing = [] ∷ [] ∷ (rest_mask ∷ []) ∷ []; len = 3 };
  };
  cat_set_filters = some only_filter ∷ [];
  builder_metrics = record {
    or_sets_removed = 0;
    and_sets_removed = 0;
    or_sets_inlined = 0;
    and_or_sets_inlined = 0;
    and_or_sets_gced = 0;
  };
  rule_recs = record { rule_index = pos 0; rule_id = 7 } ∷ [];
  neg_cats = (pos 2, pos 1000000002) ∷ [];
  default_categories = (pos 2, 0) ∷ [];
  default_cat_list = pos 2 ∷ [];
}

abbrev pub engine : CategoryEngine
engine = record {
  filter_tables = tables;
  metrics = record {
    num_bit_mask_checks = 0;
    num_mask_array_lookups = 0;
    num_bit_mask_matches = 0;
  };
}

IsLinked-first : IsLinked tables first_mask
IsLinked-first = record {
  at = 0;
  filter = only_filter;
  index_eq = refl;
  is_filter = refl;
  is_mask = omega arith;
}

IsLinked-rest : IsLinked tables rest_mask
IsLinked-rest = record {
  at = 0;
  filter = only_filter;
  index_eq = refl;
  is_filter = refl;
  is_mask = omega arith;
}

-- Every mask of the list is linked.
abbrev ListLinked : List CatSetMask → Type 0
ListLinked l = (csm : CatSetMask) → Memᴰ csm l → IsLinked tables csm

none_linked : ListLinked []
none_linked csm m = absurd (Memᴰ.not-nil m)

one_linked : (c : CatSetMask) → IsLinked tables c → ListLinked (c ∷ [])
one_linked c linked csm (Memᴰ.head e) = subst (IsLinked tables) (sym e) linked
one_linked c linked csm (Memᴰ.tail m) = absurd (Memᴰ.not-nil m)

only_linked : (i : ℕ) (f : CatSetFilter) → IsFilter tables i f → ListLinked f.cat_set_masks
only_linked zero f h = subst ListLinked (ground arith) none_linked
only_linked (suc i) f h = cc

clear0 : (i : ℕ) → 2 ≤ i → get_or ([] ∷ (first_mask ∷ []) ∷ []) i [] ≡ []
clear0 zero h = absurd (omega arith)
clear0 (suc zero) h = absurd (omega arith)
clear0 (suc (suc i)) h = refl

clear1 : (i : ℕ) → 3 ≤ i → get_or ([] ∷ [] ∷ (rest_mask ∷ []) ∷ []) i [] ≡ []
clear1 zero h = absurd (omega arith)
clear1 (suc zero) h = absurd (omega arith)
clear1 (suc (suc zero)) h = absurd (omega arith)
clear1 (suc (suc (suc i))) h = refl

default_at :
    (i : ℕ) (cat : Category) → get_elem? (pos 2 ∷ []) i ≡ some cat → (i ≡ 0) × (cat ≡ pos 2)
default_at zero cat h = ground arith
default_at (suc i) cat h = cc

numbered_at :
    (cat : Category) (i : ℕ) → lookup cat ((pos 2, 0) ∷ []) ≡ some i → (i ≡ 0) × (cat ≡ pos 2)
unfolding lookup
numbered_at (pos n) i h = ground arith
numbered_at (negsuc n) i h = cc

pub tables-IsWellFormed : IsWellFormed tables
unfolding lookup
tables-IsWellFormed = record {
  links = record { synthetic = only_linked };
  listed = λ cat csm_list h.
      get_All ListLinked tables.cat_to_cat_set_mask cat none_linked
        (none_linked, (one_linked first_mask IsLinked-first, _))
        (none_linked, (none_linked, (one_linked rest_mask IsLinked-rest, _))) h;
  array0 = record { fits = omega arith; clear = clear0 };
  array1 = record { fits = omega arith; clear = clear1 };
  numbers_bound = λ cat i h. omega (arith, (numbered_at cat i h).0);
  numbered = λ cat i h. ground (arith, default_at i cat h);
  numbers_differ = λ cat other i h k. (numbered_at cat i h).1 ∙ sym (numbered_at other i k).1;
  negated = λ cat i h. (pos 1000000002, ground (arith, default_at i cat h), refl);
}

pub only_one : (c : Category) → Memᴰ c (pos 1 ∷ []) → is_neg c ≡ false
only_one c (Memᴰ.head e) = ap is_neg e
only_one c (Memᴰ.tail m) = absurd (Memᴰ.not-nil m)

-- The event has category 1 and lacks category 2.
match_event-refines_example :
    (f' : CategoryEngine) × (rules : List ℕ) × (match_event engine (pos 1 ∷ []) ≡ done (f', rules))
    × (f'.filter_tables ≡ tables)
    × ((r : ℕ) → Memᴰ r rules ↔ IsReported tables (Brings tables (pos 1 ∷ [])) r)
match_event-refines_example = match_event-refines engine (pos 1 ∷ []) tables-IsWellFormed only_one

abbrev fives : List ℕ
fives = 5 ∷ []

abbrev small_map : SliceMap ℕ
small_map = record { backing = fives; len = 1 }

clear_small : (i : ℕ) → 1 ≤ i → get_or fives i 0 ≡ 0
clear_small zero h = absurd (omega arith)
clear_small (suc i) h = refl

entry-set_at_example :
    (s' : SliceMap ℕ) × (set_at 0 small_map (pos 3) 9 ≡ done s')
    × SliceMap.IsValid 0 s'
    × (entry 0 s' 0 ≡ (if 3 == 0 then 9 else entry 0 small_map 0))
entry-set_at_example =
    entry-set_at 0 small_map 3 0 9 (record { fits = omega arith; clear = clear_small })
