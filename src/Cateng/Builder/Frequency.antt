-- ===== src/Cateng/Builder/Frequency.antt =====
-- cateng/builder.go: how often synthetic categories, pairs of categories and pairs of or-sets occur
-- in the sets of a builder, and the pairs of one set in the order of their frequency.
use rulestone.Prelude.{
  ℕ, Option, none, some, List, [], ◌∷◌, ◌++◌, Bool, ltb, ◌==◌, map, bit_xor, if◌then◌else◌,
}
use rulestone.Prelude.Int.{is_neg}
use rulestone.Prelude.Fault.{Outcome, done, ◌>>=◌}
use rulestone.Types.{Category, bump}
use rulestone.Types.AndOrSet.{Hashmap, OrSet, AndOrSet, category_element, set_element}
use rulestone.Immutable.Hash.{Digest}
use rulestone.Immutable.Set
use rulestone.Immutable.Set.{Hashset, SetElement}
use rulestone.Cateng.Builder.{FilterBuilder, read}

-- sort.Slice, whose order on elements that the test does not order is not specified.
pub record Sort : Type 1 where
  pub slice : {A : Type 0} → (A → A → Bool) → List A → List A

-- catPair with its frequency, and orPair with its frequency.
pub record PairFreq (A : Type 0) : Type 0 where
  pub first : A
  pub second : A
  pub freq : ℕ

-- The two-element slices of a slice, each with the earlier element first.
unfoldable pub pairs : {A : Type 0} → List A → List (A × A)
pairs [] = []
pairs (x ∷ xs) = map (λ y. (x, y)) xs ++ pairs xs

module _ (m : Hashmap) where
  -- count, _ := freq.Get(k), and freq.Put(k, count+1)
  unfoldable pub freq_of : {K : Type 0} → SetElement K → m.Map K ℕ → K → ℕ
  freq_of element freq k = elim (m.get element freq k) [ none ↦ 0 | some count ↦ count ]

  unfoldable pub count : {K : Type 0} → SetElement K → m.Map K ℕ → K → m.Map K ℕ
  unfolding freq_of
  count element freq k = m.put element freq k (bump (freq_of element freq k))

  unfoldable pub count_synthetic : m.Map Category ℕ → List Category → m.Map Category ℕ
  unfolding count
  count_synthetic freq [] = freq
  count_synthetic freq (c ∷ cats) =
      count_synthetic (if is_neg c then count category_element freq c else freq) cats

module _ {h : Hashset} (m : Hashmap) (d : Digest) where
  unfoldable pub count_or_sets : m.Map Category ℕ → List (OrSet h) → m.Map Category ℕ
  unfolding count_synthetic Set.to_slice
  count_or_sets freq [] = freq
  count_or_sets freq (s ∷ or_sets) =
      count_or_sets (count_synthetic m freq (Set.to_slice h d s)) or_sets

  -- The pairs of a set, each as the set of its two elements.
  unfoldable pub count_pairs :
      {K : Type 0} ⦃element : SetElement K⦄
      → m.Map (Set.Set h K) ℕ
      → List (K × K)
      → m.Map (Set.Set h K) ℕ
  unfolding count Set.of
  count_pairs freq [] = freq
  count_pairs freq ((x, y) ∷ rest) =
      count_pairs (count m set_element freq (Set.of h d (x ∷ y ∷ []))) rest

  unfoldable pub count_pairs_in : m.Map (OrSet h) ℕ → List (OrSet h) → m.Map (OrSet h) ℕ
  unfolding count_pairs pairs Set.to_slice
  count_pairs_in freq [] = freq
  count_pairs_in freq (s ∷ or_sets) =
      count_pairs_in (count_pairs freq (pairs (Set.to_slice h d s))) or_sets

  unfoldable pub with_freq :
      {K : Type 0} ⦃element : SetElement K⦄ → m.Map (Set.Set h K) ℕ → K × K → PairFreq K
  unfolding freq_of Set.of
  with_freq freq (x, y) = record {
    first = x;
    second = y;
    freq = freq_of m set_element freq (Set.of h d (x ∷ y ∷ []));
  }

  unfoldable pub sort_cat_set_freq : Sort → OrSet h → m.Map (OrSet h) ℕ → List (PairFreq Category)
  unfolding with_freq pairs Set.to_slice
  sort_cat_set_freq sort s freq =
      sort.slice (λ (p q : PairFreq Category). ltb q.freq p.freq)
        (map (with_freq freq) (pairs (Set.to_slice h d s)))

  or_pair_hash : PairFreq (OrSet h) → ℕ
  or_pair_hash p = bit_xor p.first.hash p.second.hash

  unfoldable pub sort_or_set_freq :
      Sort → AndOrSet h → m.Map (AndOrSet h) ℕ → List (PairFreq (OrSet h))
  unfolding with_freq pairs or_pair_hash Set.to_slice
  sort_or_set_freq sort and_set freq =
      sort.slice
        (λ (p q : PairFreq (OrSet h)).
          if p.freq == q.freq then ltb (or_pair_hash q) (or_pair_hash p) else ltb q.freq p.freq)
        (map (with_freq freq) (pairs (Set.to_slice h d and_set)))

module _ {h : Hashset} (d : Digest) where
  unfoldable pub fold_slices : {M : Type 0} → (M → List (OrSet h) → M) → M → List (AndOrSet h) → M
  unfolding Set.to_slice
  fold_slices f acc [] = acc
  fold_slices f acc (s ∷ sets) = fold_slices f (f acc (Set.to_slice h d s)) sets

module _ {h : Hashset} (m : Hashmap) (d : Digest) {F : Type 0} where
  -- The sets of the records that are not nil, in order: the loops over CatFilterSets only read them.
  unfoldable pub and_sets : FilterBuilder h m F → List (Option ℕ) → Outcome (List (AndOrSet h))
  unfolding read
  and_sets fb [] = done []
  and_sets fb (none ∷ entries) = and_sets fb entries
  and_sets fb (some csr ∷ entries) = do
    v ← read m fb csr
    sets ← and_sets fb entries
    done (v.cat_filter_set.and_set ∷ sets)

  unfoldable pub fold_sets :
      {M : Type 0} → (M → List (OrSet h) → M) → M → FilterBuilder h m F → Outcome M
  unfolding and_sets fold_slices
  fold_sets f init fb = do sets ← and_sets fb fb.cat_filter_sets; done (fold_slices d f init sets)

  unfoldable pub compute_synthetic_cat_freq : FilterBuilder h m F → Outcome (m.Map Category ℕ)
  unfolding fold_sets count_or_sets
  compute_synthetic_cat_freq fb = fold_sets (count_or_sets m d) m.empty fb

  unfoldable pub compute_or_set_freq : FilterBuilder h m F → Outcome (m.Map (OrSet h) ℕ)
  unfolding fold_sets count_pairs_in
  compute_or_set_freq fb = fold_sets (count_pairs_in m d) m.empty fb

  unfoldable pub compute_and_set_freq : FilterBuilder h m F → Outcome (m.Map (AndOrSet h) ℕ)
  unfolding fold_sets count_pairs pairs
  compute_and_set_freq fb =
      fold_sets (λ freq or_sets. count_pairs m d freq (pairs or_sets)) m.empty fb
