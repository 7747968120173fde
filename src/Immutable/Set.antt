-- ===== src/Immutable/Set.antt =====
-- immutable/set.go: Set[K], a table of github.com/zyedidia/generic/hashset with the hash of its
-- elements. The table is a parameter: what the code asks of it are the operations of `Hashset`.
pub mod Order
pub mod Laws
use rulestone.Prelude.{ℕ, Bool, true, ◌&&◌, List, [], ◌∷◌, bit_xor, ◌==◌}
use rulestone.Immutable.Hash.{Digest, rehash}

-- K's methods GetHash and Equals.
pub record SetElement (K : Type 0) : Type 0 where
  pub get_hash : K → ℕ
  pub equals : K → K → Bool

-- hashset.Set[K]: a table holds elements up to `equals`, and `each` lists them in the order in
-- which Each visits them.
pub record Hashset : Type 1 where
  pub Table : Type 0 → Type 0
  pub of : (K : Type 0) → SetElement K → List K → Table K
  pub put : (K : Type 0) → Table K → K → Table K
  pub remove : (K : Type 0) → Table K → K → Table K
  pub has : (K : Type 0) → Table K → K → Bool
  pub each : (K : Type 0) → Table K → List K
  pub size : (K : Type 0) → Table K → ℕ

pub record Set (h : Hashset) (K : Type 0) : Type 0 where
  pub table : h.Table K
  pub hash : ℕ

module _ (h : Hashset) (d : Digest) {K : Type 0} ⦃element : SetElement K⦄ where
  -- hash ^= Rehash(key.GetHash()) over the elements.
  unfoldable pub hash_from : ℕ → List K → ℕ
  hash_from hash [] = hash
  hash_from hash (k ∷ ks) = hash_from (bit_xor hash (rehash d (element.get_hash k))) ks

  unfoldable pub hash_of : List K → ℕ
  unfolding hash_from rehash
  hash_of ks = hash_from 0 ks

  unfoldable pub from_hash_set : h.Table K → Set h K
  unfolding hash_of
  from_hash_set table = record { table = table; hash = hash_of (h.each K table) }

  unfoldable pub of : List K → Set h K
  unfolding from_hash_set
  of vals = from_hash_set (h.of K element vals)

  unfoldable pub has : Set h K → K → Bool
  has s val = h.has K s.table val

  unfoldable pub put_all : h.Table K → List K → h.Table K
  put_all table [] = table
  put_all table (k ∷ ks) = put_all (h.put K table k) ks

  unfoldable pub remove_all : h.Table K → List K → h.Table K
  remove_all table [] = table
  remove_all table (k ∷ ks) = remove_all (h.remove K table k) ks

  unfoldable pub union : Set h K → Set h K → Set h K
  unfolding from_hash_set put_all
  union s a = from_hash_set (put_all s.table (h.each K a.table))

  unfoldable pub difference : Set h K → Set h K → Set h K
  unfolding from_hash_set remove_all
  difference s a = from_hash_set (remove_all s.table (h.each K a.table))

  unfoldable pub all_in : Set h K → List K → Bool
  all_in s [] = true
  all_in s (k ∷ ks) = has s k && all_in s ks

  unfoldable pub is_superset : Set h K → Set h K → Bool
  unfolding all_in
  is_superset s a = all_in s (h.each K a.table)

  unfoldable pub to_slice : Set h K → List K
  to_slice s = h.each K s.table

  unfoldable pub size : Set h K → ℕ
  size s = h.size K s.table

  unfoldable pub to_hash_set : Set h K → h.Table K
  unfolding to_slice
  to_hash_set s = h.of K element (to_slice s)

-- Equals compares the hashes alone.
unfoldable pub equals : {K : Type 0} (h : Hashset) → Set h K → Set h K → Bool
equals h s other = s.hash == other.hash
