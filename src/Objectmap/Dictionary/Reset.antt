-- ===== src/Objectmap/Dictionary/Reset.antt =====
-- What a new segment does to the other entries of its map.
use rulestone.Prelude.{
  ℕ, ◌+◌, ◌<◌, ◌≡◌, refl, sym, ◌∙◌, subst, false, none, some, List, [], ◌∷◌, ◌++◌, length,
  length-append, get_elem?, get_elem?-keep, get_elem?-last, get_elem?-set_self, get_elem?-set_ne,
  lt-length_of_get_elem?, set, arith,
}
use rulestone.Prelude.Fault.{done, Returns, Returns-bind}
use rulestone.Condition.Operand.{Text}
use rulestone.Condition.Operand.Numerals.{text_eq}
use rulestone.Objectmap.Strings.{split}
use rulestone.Objectmap.TextMap.{lookup, put, lookup-put_self, lookup-put_ne}
use rulestone.Objectmap.Path.{PathSegment}
use rulestone.Objectmap.Path.Shape.{IsSegment, has_suffix-IsFree}
use rulestone.Objectmap.Dictionary.{
  AttrDictionaryRec, Heap, entries, non_leaf, known, step, new_record, register_in,
}
use rulestone.Objectmap.Dictionary.Valid.{IsDict, IsValid, IsValid-append}
use rulestone.Objectmap.Dictionary.Parents.{
  IsExtended, non_leaf-IsFresh, parent-IsDict, add_parents-IsExtended,
}
use rulestone.Objectmap.Dictionary.Walk.{known-parent, step-unknown}

-- The map of the record at `cur` after a segment was added to that of `c`.
pub record IsReset (cur : ℕ) (c : AttrDictionaryRec) (s : PathSegment) (r : Heap × ℕ) : Type 0 where
  pub source : AttrDictionaryRec
  pub here : get_elem? r.0 cur ≡ some source
  pub listed : lookup s.segment (entries source.dict) ≡ some r.1
  pub others :
      (attr : Text) (p : ℕ)
      → text_eq [] attr ≡ false
      → text_eq s.segment attr ≡ false
      → lookup attr (entries c.dict) ≡ some p
      → lookup attr (entries source.dict) ≡ some p
  pub element : text_eq s.segment [] ≡ false → known r.0 source [] ≡ done none

module _ (heap : Heap) (cur : ℕ) (c : AttrDictionaryRec) (s : PathSegment) (dict : List (Text × ℕ))
    (here : get_elem? heap cur ≡ some c) (mapped : c.dict ≡ some dict) (segment : IsSegment s)
    (valid : IsValid heap) where
  inside : cur < length heap
  inside = lt-length_of_get_elem? heap cur here

  abbrev first : Heap
  first = heap ++ non_leaf ∷ []

  module _ (heap' : Heap) (dict' : List (Text × ℕ))
      (e : IsExtended first cur c.dict_index (put [] (length heap) dict) (heap', dict')) where
    abbrev grown : AttrDictionaryRec
    grown = record c {
      dict = some (put s.segment (length heap') dict');
      dict_index = c.dict_index ++ length heap' ∷ [];
      num_attributes = c.num_attributes + 1;
    }

    abbrev last : Heap
    last = set (heap' ++ new_record c s ∷ []) cur grown

    old_here : get_elem? heap' cur ≡ some c
    old_here =
        e.unchanged cur c (omega (arith, inside, length-append heap (non_leaf ∷ [])))
          (get_elem?-keep heap (non_leaf ∷ []) cur here)

    empty_kept : get_elem? last (length heap) ≡ some non_leaf
    empty_kept =
        get_elem?-set_ne (heap' ++ new_record c s ∷ []) cur (length heap) grown
          (λ x. omega (arith, inside))
        ∙ get_elem?-keep heap' (new_record c s ∷ []) (length heap) (
            e.unchanged (length heap) non_leaf (omega (arith, length-append heap (non_leaf ∷ [])))
              (get_elem?-last heap non_leaf))

    reset : IsReset cur c s (last, length heap')
    reset = record {
      source = grown;
      here = get_elem?-set_self (heap' ++ new_record c s ∷ []) cur grown (
          omega (
            arith,
            lt-length_of_get_elem? heap' cur old_here,
            length-append heap' (new_record c s ∷ []),
          ));
      listed = lookup-put_self s.segment (length heap') dict';
      others = λ attr p ne ne' h.
          lookup-put_ne s.segment attr (length heap') dict' ne'
          ∙ e.kept attr p (
              lookup-put_ne [] attr (length heap) dict ne
              ∙ subst (λ m. lookup attr (entries m) ≡ some p) mapped h);
      element = λ ne.
          known-parent last grown non_leaf [] (length heap)
            (lookup-put_ne s.segment [] (length heap') dict' ne
              ∙ e.kept [] (length heap) (lookup-put_self [] (length heap) dict))
            empty_kept refl;
    }

  register_in-IsReset : Returns (IsReset cur c s) (register_in heap cur c s c.dict)
  unfolding register_in
  register_in-IsReset =
      subst (λ m. Returns (IsReset cur c s) (register_in heap cur c s m)) (sym mapped)
        (Returns-bind (IsExtended first cur c.dict_index (put [] (length heap) dict))
          (IsReset cur c s) _ _
          (add_parents-IsExtended [] (split s.segment b'.') first cur c.dict_index
            (put [] (length heap) dict) segment.clean tt
            (omega (arith, inside, length-append heap (non_leaf ∷ [])))
            (IsValid-append heap non_leaf non_leaf-IsFresh valid)
            (parent-IsDict heap cur c.dict_index dict [] inside (has_suffix-IsFree [] tt) (
              subst (λ m. IsDict heap cur c.dict_index (entries m)) mapped
                (valid cur c here).dict)))
          (λ (heap', dict') e. reset heap' dict' e))

  -- When the map of a valid heap's record does not know a segment, the step registers it without a panic:
  -- the entries of all other names that are not empty are kept, and the empty name, unless it is the
  -- segment's, is not known afterwards, also where it was before.
  pub step-IsReset :
      known heap c s.segment ≡ done none → Returns (IsReset cur c s) (step heap cur s)
  step-IsReset h =
      subst (Returns (IsReset cur c s)) (sym (step-unknown heap cur c s here h)) register_in-IsReset
