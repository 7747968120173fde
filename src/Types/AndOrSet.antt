-- ===== src/Types/AndOrSet.antt =====
-- types/types.go: categories as elements of a set, AndOrSet, and NewHashMap. An AndOrSet is a
-- conjunction of disjunctions of categories: a set of sets. The maps that NewHashMap makes are
-- those of github.com/zyedidia/generic/hashmap, a parameter with the operations that are used.
use rulestone.Prelude.{ℕ, List, [], ◌∷◌, Option, length}
use rulestone.Prelude.Int.{◌==ℤ◌}
use rulestone.Immutable.Hash.{Digest, uint64}
use rulestone.Immutable.Set
use rulestone.Immutable.Set.{SetElement, Hashset, Set}
use rulestone.Types.{Category}
use rulestone.Types.Slices.{map_slice}

-- hashmap.Map[K, V] over the methods of K.
pub record Hashmap : Type 1 where
  pub Map : Type 0 → Type 0 → Type 0
  pub empty : {K V : Type 0} → Map K V
  pub get : {K V : Type 0} → SetElement K → Map K V → K → Option V
  pub put : {K V : Type 0} → SetElement K → Map K V → K → V → Map K V
  pub remove : {K V : Type 0} → SetElement K → Map K V → K → Map K V

-- Category's GetHash and Equals.
instance unfoldable pub category_element : SetElement Category
category_element = record { get_hash = uint64; equals = λ v element. v ==ℤ element }

-- Set's GetHash and Equals: the stored hash, and equality of the hashes.
instance unfoldable pub set_element : {h : Hashset} {K : Type 0} → SetElement (Set h K)
set_element {h} = record { get_hash = λ s. s.hash; equals = λ s t. Set.equals h s t }

abbrev pub OrSet : Hashset → Type 0
OrSet h = Set h Category

abbrev pub AndOrSet : Hashset → Type 0
AndOrSet h = Set h (OrSet h)

module _ (h : Hashset) (d : Digest) where
  -- Size counts the elements that Each visits.
  unfoldable pub size : AndOrSet h → ℕ
  size set = length (Set.to_slice h d set)

  unfoldable pub to_slices : AndOrSet h → List (List Category)
  to_slices set = map_slice (Set.to_slice h d set) (Set.to_slice h d)

  unfoldable pub slice_to_set : {K : Type 0} ⦃element : SetElement K⦄ → List K → Set h K
  slice_to_set s = Set.of h d s

  unfoldable pub and_or_set_from_slices : List (List Category) → AndOrSet h
  and_or_set_from_slices slices = slice_to_set (map_slice slices slice_to_set)

  unfoldable pub slice_to_and_or_set : List Category → AndOrSet h
  slice_to_and_or_set s = Set.of h d (map_slice s (λ v. Set.of h d (v ∷ [])))

  unfoldable pub empty_and_or_set : AndOrSet h
  empty_and_or_set = Set.of h d []
