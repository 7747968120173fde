-- ===== src/Cateng/Builder/Optimise.antt =====
-- cateng/builder.go: optimiseOrSets and optimiseAndSets, which give a pair of elements that is
-- frequent a set of its own. The loops run over the entries that stand at the start. An entry is
-- read when its turn comes: an append may move the array under the loop, but a pass replaces only
-- the entry of the set that it has read.
use rulestone.Prelude.{
  ℕ, zero, suc, ◌+◌, none, some, List, [], ◌∷◌, ◌&&◌, ltb, length, get_elem?, if◌then◌else◌,
}
use rulestone.Prelude.Int.{neg, wrap32, ◌==ℤ◌}
use rulestone.Prelude.Fault.{Outcome, done, or_panic, ◌>>=◌}
use rulestone.Types.{Category, bump}
use rulestone.Types.Slices.{find_first_in_slice}
use rulestone.Types.AndOrSet.{Hashmap, OrSet, AndOrSet, category_element, set_element}
use rulestone.Immutable.Hash.{Digest}
use rulestone.Immutable.Set
use rulestone.Immutable.Set.{Hashset}
use rulestone.Cateng.Builder.{FilterBuilder, read, register_and_set, replace_filter_set}
use rulestone.Cateng.Builder.Compile.{single, and_of_single}
use rulestone.Cateng.Builder.Frequency.{
  Sort, PairFreq, sort_cat_set_freq, sort_or_set_freq, compute_or_set_freq, compute_and_set_freq,
}

-- The loops over CatFilterSets, by position: `body` gets the address of an entry that is not nil.
module _ {h : Hashset} {m : Hashmap} {F : Type 0} where
  unfoldable pub each_entry :
      {S : Type 0} → (S → FilterBuilder h m F) → (ℕ → ℕ → S → Outcome S) → ℕ → ℕ → S → Outcome S
  each_entry view body i zero s = done s
  each_entry view body i (suc left) s = do
    entry ← or_panic (get_elem? (view s).cat_filter_sets i)
    s' ← (elim entry [ none ↦ done s | some csr ↦ body i csr s ])
    each_entry view body (i + 1) left s'

module _ {h : Hashset} (m : Hashmap) (d : Digest) {F : Type 0} where
  -- The set of a pair is registered; if it is not the set at work, `remove` puts its synthetic
  -- category in place of the pair.
  unfoldable pub extract :
      {T : Type 0}
      → Category
      → AndOrSet h
      → (Category → T → T)
      → T × ℕ × FilterBuilder h m F
      → Outcome (T × ℕ × FilterBuilder h m F)
  unfolding register_and_set read
  extract index1 pair_set remove (table, count, fb) = do
    let (csr, registered) = register_and_set m fb pair_set
    v ← read m registered csr
    let index = v.cat_filter_set.cat_set_index1
    done (
        if index ==ℤ index1
        then (table, count, registered)
        else (remove (wrap32 (neg index)) table, bump count, registered))

  -- The loop over the pairs stops at the first one that is frequent and still in the table.
  unfoldable pub optimise_or_set :
      m.Map (OrSet h) ℕ
      → Sort
      → Category
      → OrSet h
      → ℕ × FilterBuilder h m F
      → Outcome (OrSet h × ℕ × FilterBuilder h m F)
  unfolding sort_cat_set_freq find_first_in_slice extract and_of_single Set.of Set.from_hash_set
      Set.to_hash_set
  optimise_or_set freq sort index1 s (count, fb) =
      let table = Set.to_hash_set h d s in
      elim (find_first_in_slice (sort_cat_set_freq m d sort s freq) (λ (pf : PairFreq Category).
        ltb fb.options.or_optimization_freq_threshold pf.freq
        && h.has Category table pf.first
        && h.has Category table pf.second)) [
          | none ↦ done (Set.from_hash_set h d table, count, fb)
          | some pf ↦
              (extract index1 (and_of_single d (Set.of h d (pf.first ∷ pf.second ∷ [])))
                  (λ cat t.
                    h.put Category (h.remove Category (h.remove Category t pf.first) pf.second) cat)
                  (table, count, fb)
                >>= λ (t, count', fb'). done (Set.from_hash_set h d t, count', fb'))
        ]

  unfoldable pub optimise_or_sets_of :
      m.Map (OrSet h) ℕ
      → Sort
      → Category
      → List (OrSet h)
      → ℕ × FilterBuilder h m F
      → Outcome (List (OrSet h) × ℕ × FilterBuilder h m F)
  unfolding optimise_or_set
  optimise_or_sets_of freq sort index1 [] (count, fb) = done ([], count, fb)
  optimise_or_sets_of freq sort index1 (s ∷ or_sets) (count, fb) = do
    (s', count', fb') ← optimise_or_set freq sort index1 s (count, fb)
    (rest, count'', fb'') ← optimise_or_sets_of freq sort index1 or_sets (count', fb')
    done (s' ∷ rest, count'', fb'')

  optimise_or_entry :
      m.Map (OrSet h) ℕ → Sort → ℕ → ℕ → ℕ × FilterBuilder h m F → Outcome (ℕ × FilterBuilder h m F)
  unfolding optimise_or_sets_of replace_filter_set read Set.of Set.to_slice
  optimise_or_entry freq sort i csr (count, fb) = do
    v ← read m fb csr
    let set = v.cat_filter_set.and_set
    (or_sets, count', fb') ←
        optimise_or_sets_of freq sort v.cat_filter_set.cat_set_index1 (Set.to_slice h d set)
          (count, fb)
    replaced ← replace_filter_set m fb' set (Set.of h d or_sets)
    done (count', replaced)

  unfoldable pub optimise_or_sets : Sort → FilterBuilder h m F → Outcome (ℕ × FilterBuilder h m F)
  unfolding compute_or_set_freq each_entry optimise_or_entry
  optimise_or_sets sort fb = do
    freq ← compute_or_set_freq m d fb
    each_entry {S = ℕ × FilterBuilder h m F} (λ (count, fb). fb) (optimise_or_entry freq sort) 0
        (length fb.cat_filter_sets) (0, fb)

  -- The same for a set as a whole, whose elements are or-sets.
  optimise_and_entry :
      m.Map (AndOrSet h) ℕ
      → Sort
      → ℕ
      → ℕ
      → ℕ × FilterBuilder h m F
      → Outcome (ℕ × FilterBuilder h m F)
  unfolding sort_or_set_freq find_first_in_slice extract single replace_filter_set read Set.of
      Set.from_hash_set Set.to_hash_set
  optimise_and_entry freq sort i csr (count, fb) = do
    v ← read m fb csr
    let set = v.cat_filter_set.and_set
    let table = Set.to_hash_set h d set
    (t, count', fb') ←
        (elim (find_first_in_slice (sort_or_set_freq m d sort set freq)
          (λ (pf : PairFreq (OrSet h)).
            ltb fb.options.and_optimization_freq_threshold pf.freq
            && h.has (OrSet h) table pf.first
            && h.has (OrSet h) table pf.second)) [
              | none ↦ done (table, count, fb)
              | some pf ↦
                  extract v.cat_filter_set.cat_set_index1 (Set.of h d (pf.first ∷ pf.second ∷ []))
                    (λ cat t.
                      h.put (OrSet h) (h.remove (OrSet h) (h.remove (OrSet h) t pf.first) pf.second)
                        (single d cat))
                    (table, count, fb)
            ])
    replaced ← replace_filter_set m fb' set (Set.from_hash_set h d t)
    done (count', replaced)

  unfoldable pub optimise_and_sets : Sort → FilterBuilder h m F → Outcome (ℕ × FilterBuilder h m F)
  unfolding compute_and_set_freq each_entry optimise_and_entry
  optimise_and_sets sort fb = do
    freq ← compute_and_set_freq m d fb
    each_entry {S = ℕ × FilterBuilder h m F} (λ (count, fb). fb) (optimise_and_entry freq sort) 0
        (length fb.cat_filter_sets) (0, fb)
