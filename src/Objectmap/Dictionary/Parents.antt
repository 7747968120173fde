-- ===== src/Objectmap/Dictionary/Parents.antt =====
-- The entries for the prefixes of a dotted attribute, which are added before the attribute itself.
use rulestone.Prelude.{
  ℕ, ◌<◌, All, ◌≡◌, refl, ap, sym, ◌∙◌, subst, ◌⊎◌, inl, inr, true, false, none, some, List, [],
  ◌∷◌, ◌++◌, length, length-append, get_elem?, get_elem?-keep, get_elem?-last,
  lt-length_of_get_elem?, arith, Bool-cases, Option-cases,
}
use rulestone.Prelude.Fault.{Returns, Returns-map}
use rulestone.Condition.Operand.{Text}
use rulestone.Condition.Operand.Numerals.{text_eq}
use rulestone.Objectmap.Strings.{join, has_suffix, brackets}
use rulestone.Objectmap.Strings.Split.{IsFree, join-IsFree, snoc-All}
use rulestone.Objectmap.TextMap.{lookup, put, lookup-put_self, lookup-put_ne, text_eq_iff}
use rulestone.Objectmap.Path.Shape.{IsClean, has_suffix-IsFree}
use rulestone.Objectmap.Dictionary.{AttrDictionaryRec, Heap, entries, non_leaf, add_parents}
use rulestone.Objectmap.Dictionary.Valid.{
  IsEntry, IsDict, IsValid, same_refl, Grows, Grows-append, IsDict-grows, IsFresh, IsValid-append,
}

pub put-IsDict :
    (heap : Heap) (cur : ℕ) (index : List ℕ) (dict : List (Text × ℕ)) (k : Text) (p : ℕ)
    → IsDict heap cur index dict
    → IsEntry heap cur index k p
    → IsDict heap cur index (put k p dict)
put-IsDict heap cur index dict k p valid e attr q h = elim (Bool-cases (text_eq k attr)) [
  | inl same ↦
      let eq : k ≡ attr = (text_eq_iff k attr).0 same in
      let found : some p ≡ some q =
        sym (lookup-put_self k p dict) ∙ ap (λ t. lookup t (put k p dict)) eq ∙ h in
      let eq' : p ≡ q = cc in
      subst (λ t. IsEntry heap cur index t q) eq (subst (IsEntry heap cur index k) eq' e)
  | inr other ↦ valid attr q (sym (lookup-put_ne k attr p dict other) ∙ h)
]

-- The records before `cur` are as they were.
abbrev pub Unchanged : ℕ → Heap → Heap → Type 0
Unchanged bound heap heap' =
    (q : ℕ) (r : AttrDictionaryRec)
    → q < bound
    → get_elem? heap q ≡ some r
    → get_elem? heap' q ≡ some r

-- A map with more entries, over a heap with more records.
pub record IsExtended (heap : Heap) (cur : ℕ) (index : List ℕ) (dict : List (Text × ℕ))
    (r : Heap × List (Text × ℕ)) : Type 0 where
  pub valid : IsValid r.0
  pub entries : IsDict r.0 cur index r.1
  pub unchanged : Unchanged (length heap) heap r.0
  pub kept : (attr : Text) (p : ℕ) → lookup attr dict ≡ some p → lookup attr r.1 ≡ some p

pub Unchanged-Grows : (heap heap' : Heap) → Unchanged (length heap) heap heap' → Grows heap heap'
Unchanged-Grows heap heap' same p r h = record {
  target = r;
  found = same p r (lt-length_of_get_elem? heap p h) h;
  same = same_refl r;
}

pub non_leaf-IsFresh : IsFresh non_leaf
non_leaf-IsFresh = record { none_counted = refl; no_entry = refl; no_index = refl }

-- A map with an entry for a new record that is not a leaf.
pub parent-IsDict :
    (heap : Heap) (cur : ℕ) (index : List ℕ) (dict : List (Text × ℕ)) (k : Text)
    → cur < length heap
    → has_suffix k brackets ≡ false
    → IsDict heap cur index dict
    → IsDict (heap ++ non_leaf ∷ []) cur index (put k (length heap) dict)
parent-IsDict heap cur index dict k inside bare valid =
    put-IsDict (heap ++ non_leaf ∷ []) cur index dict k (length heap)
      (IsDict-grows heap (heap ++ non_leaf ∷ []) index index (Grows-append heap non_leaf)
        (λ i p h. h) cur dict valid)
      (record {
        later = inside;
        target = non_leaf;
        found = get_elem?-last heap non_leaf;
        kind = inl (refl, bare);
      })

IsExtended-put :
    (heap : Heap) (cur : ℕ) (index : List ℕ) (dict : List (Text × ℕ)) (k : Text)
    (r : Heap × List (Text × ℕ))
    → lookup k dict ≡ none
    → IsExtended (heap ++ non_leaf ∷ []) cur index (put k (length heap) dict) r
    → IsExtended heap cur index dict r
IsExtended-put heap cur index dict k r new e = record {
  valid = e.valid;
  entries = e.entries;
  unchanged = λ q c b h.
      e.unchanged q c (omega (arith, length-append heap (non_leaf ∷ [])))
        (get_elem?-keep heap (non_leaf ∷ []) q h);
  kept = λ attr p h. e.kept attr p (put_new attr p h (Bool-cases (text_eq k attr)));
}
  where
    put_new :
        (attr : Text) (p : ℕ)
        → lookup attr dict ≡ some p
        → (text_eq k attr ≡ true) ⊎ (text_eq k attr ≡ false)
        → lookup attr (put k (length heap) dict) ≡ some p
    put_new attr p h (inl same) =
        let clash : none ≡ some p =
          sym new ∙ ap (λ t. lookup t dict) ((text_eq_iff k attr).0 same) ∙ h in
        absurd (cc)
    put_new attr p h (inr other) = lookup-put_ne k attr (length heap) dict other ∙ h

pub add_parents-IsExtended :
    (before parts : List Text) (heap : Heap) (cur : ℕ) (index : List ℕ) (dict : List (Text × ℕ))
    → IsClean parts
    → All (IsFree b'[') before
    → cur < length heap
    → IsValid heap
    → IsDict heap cur index dict
    → Returns (IsExtended heap cur index dict) (add_parents before parts heap dict)
unfolding add_parents
add_parents-IsExtended before [] heap cur index dict clean free inside valid entries = clean
add_parents-IsExtended before (last ∷ []) heap cur index dict clean free inside valid entries =
    record { valid = valid; entries = entries; unchanged = λ q r b h. h; kept = λ attr p h. h }
add_parents-IsExtended before (part ∷ next ∷ parts) heap cur index dict clean free inside valid
      entries =
    let parent = join (before ++ part ∷ []) b'.' in
    let passed = snoc-All b'[' before part free clean.0 in
    let bare = has_suffix-IsFree parent (join-IsFree b'[' b'.' (before ++ part ∷ []) refl passed) in
    rw (has_suffix-IsFree part clean.0) (elim (Option-cases (lookup parent dict)) [
      | inl new ↦ rw new (
          Returns-map (IsExtended (heap ++ non_leaf ∷ []) cur index (put parent (length heap) dict))
            (IsExtended heap cur index dict) _
            (add_parents-IsExtended (before ++ part ∷ []) (next ∷ parts) (heap ++ non_leaf ∷ []) cur
              index (put parent (length heap) dict) clean.1 passed
              (omega (arith, length-append heap (non_leaf ∷ [])))
              (IsValid-append heap non_leaf non_leaf-IsFresh valid)
              (parent-IsDict heap cur index dict parent inside bare entries))
            (λ r e. IsExtended-put heap cur index dict parent r new e))
      | inr (p, old) ↦ rw old (
          add_parents-IsExtended (before ++ part ∷ []) (next ∷ parts) heap cur index dict clean.1
            passed inside valid entries)
    ])
