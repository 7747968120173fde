-- ===== src/Objectmap/Dictionary.antt =====
-- AttrDictionaryRec and AttributePathToAddress. A pointer to a record is a position in a list, where
-- the root is the first; a record's map is `none` where it is nil.
pub mod Valid
pub mod Parents
pub mod Register
pub mod Walk
pub mod Paths
pub mod Reset
use rulestone.Prelude.{
  ℕ, zero, suc, ◌+◌, Bool, true, false, not, Option, none, some, List, [], ◌∷◌, ◌++◌, ◌==◌, length,
  get_elem?, set, if◌then◌else◌,
}
use rulestone.Prelude.Int.{ℤ, pos, is_neg, ◌==ℤ◌}
use rulestone.Prelude.Fault.{Outcome, done, panic, or_panic, ◌>>=◌}
use rulestone.Types.ErrorLog.{AppContext, log_error}
use rulestone.Condition.Operand.{Text}
use rulestone.Condition.Operand.Numerals.{text_eq}
use rulestone.Objectmap.Strings.{split, join, has_suffix, brackets}
use rulestone.Objectmap.TextMap.{lookup, put}
use rulestone.Objectmap.Path.{
  PathError, bad_index, negative_index, not_available, not_an_array, Result, ok, err, PathSegment,
  minus_one, minus_two, star, plus, split_segments,
}

-- `mapper` is whether the pointer to the mapper is set.
pub record AttrDictionaryRec : Type 0 where
  pub map_index : ℤ
  pub dict : Option (List (Text × ℕ))
  pub dict_index : List ℕ
  pub attribute : Text
  pub num_attributes : ℕ
  pub mapper : Bool
  pub path : Text
  pub address : List ℤ

abbrev pub Heap : Type 0
Heap = List AttrDictionaryRec

-- &AttrDictionaryRec{dict: make(…), mapper: &result}
abbrev pub root_rec : AttrDictionaryRec
root_rec = record {
  map_index = pos 0;
  dict = some [];
  dict_index = [];
  attribute = [];
  num_attributes = 0;
  mapper = true;
  path = [];
  address = [];
}

-- &AttrDictionaryRec{mapIndex: -1}
abbrev pub non_leaf : AttrDictionaryRec
non_leaf = record {
  map_index = minus_one;
  dict = none;
  dict_index = [];
  attribute = [];
  num_attributes = 0;
  mapper = false;
  path = [];
  address = [];
}

-- A read of a nil map finds nothing.
abbrev pub entries : Option (List (Text × ℕ)) → List (Text × ℕ)
entries none = []
entries (some d) = d

-- A record for every proper prefix of a dotted attribute that the map has no entry for. `before` are
-- the parts that were passed.
unfoldable pub add_parents :
    List Text → List Text → Heap → List (Text × ℕ) → Outcome (Heap × List (Text × ℕ))
add_parents before [] heap dict = panic
add_parents before (last ∷ []) heap dict = done (heap, dict)
add_parents before (part ∷ next ∷ parts) heap dict =
    let parent = join (before ++ part ∷ []) b'.' in
    let kept = add_parents (before ++ part ∷ []) (next ∷ parts) heap dict in
    let added =
      add_parents (before ++ part ∷ []) (next ∷ parts) (heap ++ non_leaf ∷ [])
        (put parent (length heap) dict) in
    if has_suffix part brackets
    then panic
    else elim (lookup parent dict) [ some p ↦ kept | none ↦ added ]

-- The addresses and paths that new records get.
unfoldable pub new_address : AttrDictionaryRec → List ℤ
new_address c = elim c.address [
  | [] ↦ pos c.num_attributes ∷ []
  | i ∷ is ↦ (i ∷ is) ++ minus_one ∷ pos c.num_attributes ∷ []
]

unfoldable pub new_path : AttrDictionaryRec → Text → Text
new_path c attr = if text_eq c.path [] then attr else c.path ++ b'.' ∷ attr

-- The record of a segment. That of an attribute which is no array has no map.
unfoldable pub new_record : AttrDictionaryRec → PathSegment → AttrDictionaryRec
unfolding new_address new_path
new_record c s = record {
  map_index = pos c.num_attributes;
  dict = if s.index ==ℤ minus_one then none else some [];
  dict_index = [];
  attribute = s.segment;
  num_attributes = 0;
  mapper = false;
  path = new_path c s.segment;
  address = new_address c;
}

-- A segment that the map of the record at `cur` does not have: the record with the empty attribute
-- reset, the prefixes and the segment, and the pointer to the segment's record.
unfoldable pub register_in :
    Heap → ℕ → AttrDictionaryRec → PathSegment → Option (List (Text × ℕ)) → Outcome (Heap × ℕ)
unfolding add_parents new_record
register_in heap cur c s none = panic
register_in heap cur c s (some dict) = do
  let dict = put [] (length heap) dict
  (heap, dict) ← add_parents [] (split s.segment b'.') (heap ++ non_leaf ∷ []) dict
  let p = length heap
  let c' : AttrDictionaryRec = record c {
    dict = some (put s.segment p dict);
    dict_index = c.dict_index ++ p ∷ [];
    num_attributes = c.num_attributes + 1;
  }
  done (set (heap ++ new_record c s ∷ []) cur c', p)

-- What `nextDictRec, ok := curDictRec.dict[attr]; !ok || nextDictRec.mapIndex == -1` tests: the
-- record of a segment that is registered.
unfoldable pub known : Heap → AttrDictionaryRec → Text → Outcome (Option ℕ)
known heap c attr = elim (lookup attr (entries c.dict)) [
  | none ↦ done none
  | some p ↦
      or_panic (get_elem? heap p) >>= λ r. done (if r.map_index ==ℤ minus_one then none else some p)
]

-- The next record of the walk.
unfoldable pub step : Heap → ℕ → PathSegment → Outcome (Heap × ℕ)
unfolding known register_in
step heap cur s = do
  c ← or_panic (get_elem? heap cur)
  found ← known heap c s.segment
  elim found [ some p ↦ done (heap, p) | none ↦ register_in heap cur c s c.dict ]

-- What a segment adds to the address.
unfoldable pub address_of : ℤ → PathSegment → List ℤ
address_of map_index s =
    map_index
    ∷ (if is_neg s.index
        then []
        else if text_eq s.quantifier []
        then s.index ∷ []
        else if text_eq s.quantifier plus
        then minus_two ∷ []
        else if text_eq s.quantifier star
        then minus_one ∷ []
        else [])

unfoldable pub walk : List PathSegment → Heap → ℕ → Outcome (Heap × List ℤ)
unfolding step address_of
walk [] heap cur = done (heap, [])
walk (s ∷ segments) heap cur = do
  (heap, next) ← step heap cur s
  r ← or_panic (get_elem? heap next)
  (heap, rest) ← walk segments heap next
  done (heap, address_of r.map_index s ++ rest)

-- mapper.Ctx.Errorf also logs its error; fmt.Errorf and strconv do not.
unfoldable pub report : PathError → AppContext PathError → AppContext PathError
unfolding log_error
report (bad_index text) ctx = ctx
report (negative_index segment index) ctx = (log_error ctx (negative_index segment index)).0
report (not_available path) ctx = (log_error ctx (not_available path)).0
report (not_an_array path) ctx = ctx

-- What the package changes: the records and the log.
pub record Dictionary : Type 0 where
  pub heap : Heap
  pub ctx : AppContext PathError

unfoldable pub walked :
    Dictionary → ℕ → Result (List PathSegment) → Outcome (Dictionary × Result (List ℤ))
unfolding walk report
walked d cur (err e) = done (record d { ctx = report e d.ctx }, err e)
walked d cur (ok segments) = do
  (heap, address) ← walk segments d.heap cur
  done (record d { heap = heap }, ok address)

unfoldable pub attribute_path_to_address :
    Dictionary → ℕ → Text → Outcome (Dictionary × Result (List ℤ))
unfolding walked
attribute_path_to_address d cur attr_path = do
  r ← or_panic (get_elem? d.heap cur)
  segments ← split_segments r.mapper attr_path
  walked d cur segments
