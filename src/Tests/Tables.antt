-- ===== src/Tests/Tables.antt =====
-- Hash tables and a digest for the tests: a set is the list of its elements, a map a list of pairs,
-- and the digest of some bytes these bytes.
use rulestone.Prelude.{
  Bool, true, false, Option, none, some, List, [], ◌∷◌, ◌++◌, length, replicate, if◌then◌else◌,
}
use rulestone.Immutable.Hash.{Digest}
use rulestone.Immutable.Set.{SetElement, Hashset}
use rulestone.Types.AndOrSet.{Hashmap}

module _ {K : Type 0} (element : SetElement K) where
  abbrev pub has_key : List K → K → Bool
  has_key [] k = false
  has_key (x ∷ xs) k = if element.equals x k then true else has_key xs k

  abbrev pub remove_key : List K → K → List K
  remove_key [] k = []
  remove_key (x ∷ xs) k =
      let rest = remove_key xs k in if element.equals x k then rest else x ∷ rest

  abbrev pub add_key : List K → K → List K
  add_key xs k = if has_key xs k then xs else xs ++ k ∷ []

  abbrev add_keys : List K → List K → List K
  add_keys xs [] = xs
  add_keys xs (k ∷ ks) = add_keys (add_key xs k) ks

  abbrev find_key : {V : Type 0} → List (K × V) → K → Option V
  find_key [] k = none
  find_key ((x, v) ∷ m) k = if element.equals x k then some v else find_key m k

  abbrev drop_key : {V : Type 0} → List (K × V) → K → List (K × V)
  drop_key [] k = []
  drop_key ((x, v) ∷ m) k =
      let rest = drop_key m k in if element.equals x k then rest else (x, v) ∷ rest

abbrev pub hashset : Hashset
hashset = record {
  Table = λ K. SetElement K × List K;
  of = λ K element vals. (element, add_keys element [] vals);
  put = λ K (element, keys) k. (element, add_key element keys k);
  remove = λ K (element, keys) k. (element, remove_key element keys k);
  has = λ K (element, keys) k. has_key element keys k;
  each = λ K (element, keys). keys;
  size = λ K (element, keys). length keys;
}

abbrev pub hashmap : Hashmap
hashmap = record {
  Map = λ K V. List (K × V);
  empty = [];
  get = λ element m k. find_key element m k;
  put = λ element m k v. (k, v) ∷ drop_key element m k;
  remove = λ element m k. drop_key element m k;
}

abbrev pub digest : Digest
digest = record { sum256 = λ bytes. bytes ++ replicate 32 0 }
