-- ===== src/Cateng/Builder/Inline.antt =====
-- cateng/builder.go: inlineOrSets and inlineAndOrSets, which put the set of a synthetic category
-- that occurs once in its place, and gcAndOrSets. The fuel bounds the nesting of such sets.
use rulestone.Prelude.{ℕ, zero, suc, List, [], ◌∷◌, ◌++◌, ◌&&◌, ◌==◌, length, if◌then◌else◌}
use rulestone.Prelude.Int.{negsuc, is_neg}
use rulestone.Prelude.Fault.{Outcome, done, panic, out_of_fuel, ◌>>=◌}
use rulestone.Types.{Category, bump}
use rulestone.Types.AndOrSet
use rulestone.Types.AndOrSet.{Hashmap, OrSet, AndOrSet, category_element, set_element}
use rulestone.Immutable.Hash.{Digest}
use rulestone.Immutable.Set
use rulestone.Immutable.Set.{Hashset}
use rulestone.Cateng.Builder.{
  CatSetRec, FilterBuilder, read, set_index_of, replace_filter_set, unregister_filter_set,
}
use rulestone.Cateng.Builder.Assign.{entry_at}
use rulestone.Cateng.Builder.Frequency.{freq_of, compute_synthetic_cat_freq}
use rulestone.Cateng.Builder.Optimise.{each_entry}

-- s[0]
first_of : {A : Type 0} → List A → Outcome A
first_of [] = panic
first_of (x ∷ xs) = done x

module _ {h : Hashset} (m : Hashmap) (d : Digest) {F : Type 0} where
  or_set_inlined : FilterBuilder h m F → FilterBuilder h m F
  or_set_inlined fb = record fb {
    metrics = record fb.metrics { or_sets_inlined = bump fb.metrics.or_sets_inlined };
  }

  and_or_set_inlined : FilterBuilder h m F → FilterBuilder h m F
  and_or_set_inlined fb = record fb {
    metrics = record fb.metrics { and_or_sets_inlined = bump fb.metrics.and_or_sets_inlined };
  }

  -- fb.CatFilterSets[-cat-1]
  unfoldable pub rec_of : FilterBuilder h m F → Category → Outcome (CatSetRec h)
  unfolding entry_at read
  rec_of fb cat = do i ← set_index_of cat; csr ← entry_at m d fb i; read m fb csr

  -- What one category of an or-set becomes; `recurse` is inlineOrSet for another or-set.
  unfoldable pub inline_cat :
      (OrSet h → FilterBuilder h m F → Outcome (List Category × FilterBuilder h m F))
      → m.Map Category ℕ
      → Category
      → FilterBuilder h m F
      → Outcome (List Category × FilterBuilder h m F)
  unfolding rec_of first_of or_set_inlined freq_of AndOrSet.size Set.to_slice
  inline_cat recurse freq cat fb =
      if is_neg cat
      then (do
        v ← rec_of fb cat
        let and_or_set = v.cat_filter_set.and_set
        (if AndOrSet.size h d and_or_set == 1 && freq_of m category_element freq cat == 1
            then (do
              inlined ← first_of (Set.to_slice h d and_or_set)
              (cats, fb') ← recurse inlined fb
              done (cats, or_set_inlined fb'))
            else done (cat ∷ [], fb)))
      else done (cat ∷ [], fb)

  unfoldable pub inline_cats :
      (OrSet h → FilterBuilder h m F → Outcome (List Category × FilterBuilder h m F))
      → m.Map Category ℕ
      → List Category
      → FilterBuilder h m F
      → Outcome (List Category × FilterBuilder h m F)
  unfolding inline_cat
  inline_cats recurse freq [] fb = done ([], fb)
  inline_cats recurse freq (cat ∷ cats) fb = do
    (new_s, fb') ← inline_cat recurse freq cat fb
    (rest, fb'') ← inline_cats recurse freq cats fb'
    done (new_s ++ rest, fb'')

  unfoldable pub inline_or_set :
      ℕ
      → m.Map Category ℕ
      → OrSet h
      → FilterBuilder h m F
      → Outcome (List Category × FilterBuilder h m F)
  unfolding inline_cats Set.to_slice
  inline_or_set zero freq or_set fb = out_of_fuel
  inline_or_set (suc fuel) freq or_set fb =
      inline_cats (inline_or_set fuel freq) freq (Set.to_slice h d or_set) fb

  inline_or_sets_of :
      ℕ
      → m.Map Category ℕ
      → List (OrSet h)
      → FilterBuilder h m F
      → Outcome (List (OrSet h) × FilterBuilder h m F)
  unfolding inline_or_set Set.of
  inline_or_sets_of fuel freq [] fb = done ([], fb)
  inline_or_sets_of fuel freq (s ∷ or_sets) fb = do
    (cats, fb') ← inline_or_set fuel freq s fb
    (rest, fb'') ← inline_or_sets_of fuel freq or_sets fb'
    done (Set.of h d cats ∷ rest, fb'')

  inline_or_entry :
      ℕ → m.Map Category ℕ → ℕ → ℕ → FilterBuilder h m F → Outcome (FilterBuilder h m F)
  unfolding inline_or_sets_of replace_filter_set read Set.of Set.to_slice
  inline_or_entry fuel freq i csr fb = do
    v ← read m fb csr
    let and_or_set = v.cat_filter_set.and_set
    (new_s, fb') ← inline_or_sets_of fuel freq (Set.to_slice h d and_or_set) fb
    replace_filter_set m fb' and_or_set (Set.of h d new_s)

  unfoldable pub inline_or_sets : ℕ → FilterBuilder h m F → Outcome (FilterBuilder h m F)
  unfolding compute_synthetic_cat_freq each_entry inline_or_entry
  inline_or_sets fuel fb = do
    freq ← compute_synthetic_cat_freq m d fb
    each_entry (λ fb. fb) (inline_or_entry fuel freq) 0 (length fb.cat_filter_sets) fb

  -- What an or-set becomes whose only element is a synthetic category: the set of that category,
  -- unless a rule refers to it or it occurs more than once.
  unfoldable pub inline_synthetic :
      (AndOrSet h → FilterBuilder h m F → Outcome (List (OrSet h) × FilterBuilder h m F))
      → m.Map Category ℕ
      → OrSet h
      → Category
      → FilterBuilder h m F
      → Outcome (List (OrSet h) × FilterBuilder h m F)
  unfolding rec_of unregister_filter_set and_or_set_inlined freq_of
  inline_synthetic recurse freq s cat fb =
      if is_neg cat
      then (do
        v ← rec_of fb cat
        (if length v.rule_set == 0 && freq_of m category_element freq cat == 1
            then (do
              (new_s, fb') ← recurse v.cat_filter_set.and_set fb
              unregistered ← unregister_filter_set m fb' v.cat_filter_set.and_set
              done (new_s, and_or_set_inlined unregistered))
            else done (s ∷ [], fb)))
      else done (s ∷ [], fb)

  unfoldable pub inline_each :
      (AndOrSet h → FilterBuilder h m F → Outcome (List (OrSet h) × FilterBuilder h m F))
      → m.Map Category ℕ
      → List (OrSet h)
      → FilterBuilder h m F
      → Outcome (List (OrSet h) × FilterBuilder h m F)
  unfolding inline_synthetic first_of Set.to_slice Set.size
  inline_each recurse freq [] fb = done ([], fb)
  inline_each recurse freq (s ∷ or_sets) fb = do
    (new_s, fb') ←
        (if Set.size h d s == 1
          then (first_of (Set.to_slice h d s) >>= λ cat. inline_synthetic recurse freq s cat fb)
          else done (s ∷ [], fb))
    (rest, fb'') ← inline_each recurse freq or_sets fb'
    done (new_s ++ rest, fb'')

  unfoldable pub inline_and_or_set :
      ℕ
      → m.Map Category ℕ
      → AndOrSet h
      → FilterBuilder h m F
      → Outcome (List (OrSet h) × FilterBuilder h m F)
  unfolding inline_each Set.to_slice
  inline_and_or_set zero freq and_or_set fb = out_of_fuel
  inline_and_or_set (suc fuel) freq and_or_set fb =
      inline_each (inline_and_or_set fuel freq) freq (Set.to_slice h d and_or_set) fb

  inline_and_or_entry :
      ℕ → m.Map Category ℕ → ℕ → ℕ → FilterBuilder h m F → Outcome (FilterBuilder h m F)
  unfolding inline_and_or_set replace_filter_set read Set.of
  inline_and_or_entry fuel freq i csr fb = do
    v ← read m fb csr
    let and_or_set = v.cat_filter_set.and_set
    (new_s, fb') ← inline_and_or_set fuel freq and_or_set fb
    replace_filter_set m fb' and_or_set (Set.of h d new_s)

  unfoldable pub inline_and_or_sets : ℕ → FilterBuilder h m F → Outcome (FilterBuilder h m F)
  unfolding compute_synthetic_cat_freq each_entry inline_and_or_entry
  inline_and_or_sets fuel fb = do
    freq ← compute_synthetic_cat_freq m d fb
    each_entry (λ fb. fb) (inline_and_or_entry fuel freq) 0 (length fb.cat_filter_sets) fb

  -- A set that no rule and no other set refers to is dropped.
  gc_entry : m.Map Category ℕ → ℕ → ℕ → FilterBuilder h m F → Outcome (FilterBuilder h m F)
  unfolding unregister_filter_set read freq_of
  gc_entry freq i csr fb = do
    v ← read m fb csr
    (if length v.rule_set == 0 && freq_of m category_element freq (negsuc i) == 0
        then unregister_filter_set m
            (record fb {
              metrics = record fb.metrics { and_or_sets_gced = bump fb.metrics.and_or_sets_gced };
            })
            v.cat_filter_set.and_set
        else done fb)

  unfoldable pub gc_and_or_sets : FilterBuilder h m F → Outcome (FilterBuilder h m F)
  unfolding compute_synthetic_cat_freq each_entry gc_entry
  gc_and_or_sets fb = do
    freq ← compute_synthetic_cat_freq m d fb
    each_entry (λ fb. fb) (gc_entry freq) 0 (length fb.cat_filter_sets) fb
