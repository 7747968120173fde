-- ===== src/Objectmap/Dictionary/Register.antt =====
-- The registration of a segment that a map does not have, and the invariant of the records.
use rulestone.Prelude.{
  ℕ, ◌+◌, ◌<◌, ◌≡◌, refl, ap, sym, ◌∙◌, subst, ◌⊎◌, inl, inr, not, some, List, [], ◌∷◌, ◌++◌,
  length, length-append, get_elem?, get_elem?-keep, get_elem?-last, get_elem?-append_one,
  get_elem?-set_self, get_elem?-set_ne, lt-length_of_get_elem?, set, arith, Bool-cases,
}
use rulestone.Prelude.Int.{pos, ◌==ℤ◌}
use rulestone.Prelude.Fault.{Returns, Returns-bind}
use rulestone.Condition.Operand.{Text}
use rulestone.Objectmap.Strings.{split}
use rulestone.Objectmap.TextMap.{lookup, put, lookup-put_self}
use rulestone.Objectmap.Path.{PathSegment, minus_one}
use rulestone.Objectmap.Path.Shape.{IsSegment, has_suffix-IsFree}
use rulestone.Objectmap.Dictionary.{
  AttrDictionaryRec, Heap, entries, non_leaf, new_record, register_in,
}
use rulestone.Objectmap.Dictionary.Parents.{
  put-IsDict, Unchanged, IsExtended, Unchanged-Grows, non_leaf-IsFresh, parent-IsDict,
  add_parents-IsExtended,
}
use rulestone.Objectmap.Dictionary.Valid.{
  has_map, IsLeaf, IsIndexed, IsDict, IsRec, IsValid, IsSame, Grows, Grows-trans, Grows-append,
  Grows-set, IsDict-grows, IsIndexed-grows, IsFresh, IsValid-append, IsValid-set,
}

-- What a step of the walk leaves: the record of the segment, found in the map of the record at `cur`.
pub record IsStepped (heap : Heap) (cur : ℕ) (s : PathSegment) (r : Heap × ℕ) : Type 0 where
  pub valid : IsValid r.0
  pub grows : Grows heap r.0
  pub unchanged : Unchanged cur heap r.0
  pub later : cur < r.1
  pub source : AttrDictionaryRec
  pub here : get_elem? r.0 cur ≡ some source
  pub listed : lookup s.segment (entries source.dict) ≡ some r.1
  pub target : AttrDictionaryRec
  pub found : get_elem? r.0 r.1 ≡ some target
  pub leaf : IsLeaf source.dict_index s.segment r.1 target

-- The record of the map after a segment was added.
abbrev added : AttrDictionaryRec → PathSegment → ℕ → List (Text × ℕ) → AttrDictionaryRec
added c s p dict = record c {
  dict = some (put s.segment p dict);
  dict_index = c.dict_index ++ p ∷ [];
  num_attributes = c.num_attributes + 1;
}

new_record-IsFresh : (c : AttrDictionaryRec) (s : PathSegment) → IsFresh (new_record c s)
unfolding new_record
new_record-IsFresh c s = elim (Bool-cases (s.index ==ℤ minus_one)) [
  | inl scalar ↦ record { none_counted = refl; no_entry = rw scalar refl; no_index = refl }
  | inr array ↦ record { none_counted = refl; no_entry = rw array refl; no_index = refl }
]

has_map-new_record :
    (c : AttrDictionaryRec) (s : PathSegment)
    → has_map (new_record c s) ≡ not (s.index ==ℤ minus_one)
unfolding new_record
has_map-new_record c s = elim (Bool-cases (s.index ==ℤ minus_one)) [
  | inl scalar ↦ rw scalar
  | inr array ↦ rw array
]

new_record-IsLeaf :
    (c : AttrDictionaryRec) (s : PathSegment) (p : ℕ)
    → c.num_attributes ≡ length c.dict_index
    → IsSegment s
    → IsLeaf (c.dict_index ++ p ∷ []) s.segment p (new_record c s)
unfolding new_record
new_record-IsLeaf c s p count segment = record {
  at = length c.dict_index;
  numbered = ap pos count;
  listed = get_elem?-last c.dict_index p;
  boxed = has_map-new_record c s ∙ sym segment.suffix;
  named = refl;
}

-- The last writes of a registration: the record of the segment, and the record at `cur`.
module _ (heap0 heap : Heap) (cur : ℕ) (c : AttrDictionaryRec) (s : PathSegment)
    (dict0 dict : List (Text × ℕ)) (here : get_elem? heap0 cur ≡ some c)
    (mapped : c.dict ≡ some dict0) (segment : IsSegment s) (rec : IsRec heap0 cur c)
    (e : IsExtended
      (heap0 ++ non_leaf ∷ [])
      cur
      c.dict_index
      (put [] (length heap0) dict0)
      (heap, dict)) where
  inside : cur < length heap0
  inside = lt-length_of_get_elem? heap0 cur here

  old : Unchanged (length heap0) heap0 heap
  old q r b h =
      e.unchanged q r (omega (arith, length-append heap0 (non_leaf ∷ [])))
        (get_elem?-keep heap0 (non_leaf ∷ []) q h)

  abbrev wide : Heap
  wide = heap ++ new_record c s ∷ []

  abbrev grown : AttrDictionaryRec
  grown = added c s (length heap) dict

  grown-IsSame : IsSame c grown
  grown-IsSame = record { map_index = refl; has_map = rw mapped; attribute = refl; mapper = refl }

  wide-Grows : Grows heap wide
  wide-Grows = Grows-append heap (new_record c s)

  wide_here : get_elem? wide cur ≡ some c
  wide_here = get_elem?-keep heap (new_record c s ∷ []) cur (old cur c inside here)

  before_last : cur < length heap
  before_last = lt-length_of_get_elem? heap cur (old cur c inside here)

  index_grown :
      (i p : ℕ)
      → (get_elem? c.dict_index i ≡ some p) ⊎ ((i ≡ length c.dict_index) × (p ≡ length heap))
      → IsIndexed wide cur i p
  unfolding new_record
  index_grown i p (inl h) =
      IsIndexed-grows heap0 wide
        (Grows-trans heap0 heap wide (Unchanged-Grows heap0 heap old) wide-Grows) cur i p
        (rec.index i p h)
  index_grown i p (inr (at, to)) = record {
    later = omega (arith, before_last);
    target = new_record c s;
    found = rw to (get_elem?-last heap (new_record c s));
    numbered = ap pos (rec.count ∙ sym at);
  }

  grown-IsRec : IsRec wide cur grown
  grown-IsRec = record {
    count = omega (arith, rec.count, length-append c.dict_index (length heap ∷ []));
    dict =
        put-IsDict wide cur grown.dict_index dict s.segment (length heap)
          (IsDict-grows heap wide c.dict_index grown.dict_index wide-Grows
            (λ i p h. get_elem?-keep c.dict_index (length heap ∷ []) i h) cur dict e.entries)
          (record {
            later = before_last;
            target = new_record c s;
            found = get_elem?-last heap (new_record c s);
            kind = inr (new_record-IsLeaf c s (length heap) rec.count segment);
          });
    index = λ i p h. index_grown i p (get_elem?-append_one c.dict_index (length heap) i h);
  }

  pub stepped : IsStepped heap0 cur s (set wide cur grown, length heap)
  stepped = record {
    valid =
        IsValid-set wide cur c grown
          (IsValid-append heap (new_record c s) (new_record-IsFresh c s) e.valid) wide_here
          grown-IsSame grown-IsRec;
    grows = Grows-trans heap0 heap (set wide cur grown) (Unchanged-Grows heap0 heap old) (
        Grows-trans heap wide (set wide cur grown) wide-Grows
          (Grows-set wide cur c grown wide_here grown-IsSame));
    unchanged = λ q r b h.
        get_elem?-set_ne wide cur q grown (λ x. omega arith)
        ∙ get_elem?-keep heap (new_record c s ∷ []) q (old q r (omega (arith, inside)) h);
    later = before_last;
    source = grown;
    here = get_elem?-set_self wide cur grown (lt-length_of_get_elem? wide cur wide_here);
    listed = lookup-put_self s.segment (length heap) dict;
    target = new_record c s;
    found =
        get_elem?-set_ne wide cur (length heap) grown (λ x. omega (arith, before_last))
        ∙ get_elem?-last heap (new_record c s);
    leaf = new_record-IsLeaf c s (length heap) rec.count segment;
  }

-- Where the record at `cur` has a map, a segment is registered without a panic.
pub register_in-IsStepped :
    (heap : Heap) (cur : ℕ) (c : AttrDictionaryRec) (s : PathSegment) (dict : List (Text × ℕ))
    → get_elem? heap cur ≡ some c
    → c.dict ≡ some dict
    → IsSegment s
    → IsValid heap
    → Returns (IsStepped heap cur s) (register_in heap cur c s c.dict)
unfolding register_in
register_in-IsStepped heap cur c s dict here mapped segment valid =
    let inside = lt-length_of_get_elem? heap cur here in
    let rec = valid cur c here in
    rw mapped (
      Returns-bind (IsExtended (heap ++ non_leaf ∷ []) cur c.dict_index (put [] (length heap) dict))
        (IsStepped heap cur s) _ _
        (add_parents-IsExtended [] (split s.segment b'.') (heap ++ non_leaf ∷ []) cur c.dict_index
          (put [] (length heap) dict) segment.clean tt
          (omega (arith, length-append heap (non_leaf ∷ [])))
          (IsValid-append heap non_leaf non_leaf-IsFresh valid)
          (parent-IsDict heap cur c.dict_index dict [] inside (has_suffix-IsFree [] tt)
            (subst (λ d. IsDict heap cur c.dict_index (entries d)) mapped rec.dict)))
        (λ (heap', dict') e. stepped heap heap' cur c s dict dict' here mapped segment rec e))
