-- ===== src/Objectmap/Dictionary/Valid.antt =====
-- The invariant of the records: what a map and an index point to, and that it lies later in the heap.
use rulestone.Prelude.{
  ℕ, zero, suc, ◌<◌, ◌≡◌, refl, ap, sym, ◌∙◌, subst, ◌⊎◌, inl, inr, Bool, true, false, Option, none,
  some, List, [], ◌∷◌, ◌++◌, length, get_elem?, get_elem?-keep, get_elem?-append_one,
  get_elem?-set_self, get_elem?-set_ne, lt-length_of_get_elem?, set,
}
use native.Mathlib.Decide.{ℕ_discrete}
use rulestone.Prelude.Int.{pos}
use rulestone.Condition.Operand.{Text}
use rulestone.Objectmap.Strings.{has_suffix, brackets}
use rulestone.Objectmap.TextMap.{lookup}
use rulestone.Objectmap.Path.{minus_one}
use rulestone.Objectmap.Dictionary.{AttrDictionaryRec, Heap, entries, root_rec}

abbrev pub is_made : Option (List (Text × ℕ)) → Bool
is_made none = false
is_made (some d) = true

abbrev pub has_map : AttrDictionaryRec → Bool
has_map r = is_made r.dict

-- A leaf has the position that its index names, and a map exactly if it is an array.
pub record IsLeaf (index : List ℕ) (attr : Text) (p : ℕ) (r : AttrDictionaryRec) : Type 0 where
  pub at : ℕ
  pub numbered : r.map_index ≡ pos at
  pub listed : get_elem? index at ≡ some p
  pub boxed : has_map r ≡ has_suffix attr brackets
  pub named : r.attribute ≡ attr

pub record IsEntry (heap : Heap) (cur : ℕ) (index : List ℕ) (attr : Text) (p : ℕ) : Type 0 where
  pub later : cur < p
  pub target : AttrDictionaryRec
  pub found : get_elem? heap p ≡ some target
  pub kind :
      ((target.map_index ≡ minus_one) × (has_suffix attr brackets ≡ false))
      ⊎ IsLeaf index attr p target

pub record IsIndexed (heap : Heap) (cur i p : ℕ) : Type 0 where
  pub later : cur < p
  pub target : AttrDictionaryRec
  pub found : get_elem? heap p ≡ some target
  pub numbered : target.map_index ≡ pos i

abbrev pub IsDict : Heap → ℕ → List ℕ → List (Text × ℕ) → Type 0
IsDict heap cur index dict =
    (attr : Text) (p : ℕ) → lookup attr dict ≡ some p → IsEntry heap cur index attr p

pub record IsRec (heap : Heap) (cur : ℕ) (c : AttrDictionaryRec) : Type 0 where
  pub count : c.num_attributes ≡ length c.dict_index
  pub dict : IsDict heap cur c.dict_index (entries c.dict)
  pub index : (i p : ℕ) → get_elem? c.dict_index i ≡ some p → IsIndexed heap cur i p

abbrev pub IsValid : Heap → Type 0
IsValid heap = (cur : ℕ) (c : AttrDictionaryRec) → get_elem? heap cur ≡ some c → IsRec heap cur c

-- What a record keeps when its map grows, and a heap whose records keep it.
pub record IsSame (r s : AttrDictionaryRec) : Type 0 where
  pub map_index : s.map_index ≡ r.map_index
  pub has_map : has_map s ≡ has_map r
  pub attribute : s.attribute ≡ r.attribute
  pub mapper : s.mapper ≡ r.mapper

pub record IsKept (heap : Heap) (p : ℕ) (r : AttrDictionaryRec) : Type 0 where
  pub target : AttrDictionaryRec
  pub found : get_elem? heap p ≡ some target
  pub same : IsSame r target

abbrev pub Grows : Heap → Heap → Type 0
Grows heap heap' = (p : ℕ) (r : AttrDictionaryRec) → get_elem? heap p ≡ some r → IsKept heap' p r

abbrev pub same_refl : (r : AttrDictionaryRec) → IsSame r r
same_refl r = record { map_index = refl; has_map = refl; attribute = refl; mapper = refl }

pub Grows-trans : (a b c : Heap) → Grows a b → Grows b c → Grows a c
Grows-trans a b c f g p r h =
    let k = f p r h in
    let l = g p k.target k.found in
    record {
      target = l.target;
      found = l.found;
      same = record {
        map_index = l.same.map_index ∙ k.same.map_index;
        has_map = l.same.has_map ∙ k.same.has_map;
        attribute = l.same.attribute ∙ k.same.attribute;
        mapper = l.same.mapper ∙ k.same.mapper;
      };
    }

pub Grows-append : (heap : Heap) (r : AttrDictionaryRec) → Grows heap (heap ++ r ∷ [])
Grows-append heap r p s h = record {
  target = s;
  found = get_elem?-keep heap (r ∷ []) p h;
  same = same_refl s;
}

pub Grows-set :
    (heap : Heap) (cur : ℕ) (c c' : AttrDictionaryRec)
    → get_elem? heap cur ≡ some c
    → IsSame c c'
    → Grows heap (set heap cur c')
Grows-set heap cur c c' here same p r h = elim (ℕ_discrete cur p) [
  | yes e ↦ record {
    target = c';
    found =
        subst (λ q. get_elem? (set heap cur c') q ≡ some c') e
          (get_elem?-set_self heap cur c' (lt-length_of_get_elem? heap cur here));
    same = let eq : c ≡ r = cc in subst (λ x. IsSame x c') eq same;
  }
  | no ne ↦ record { target = r; found = get_elem?-set_ne heap cur p c' ne ∙ h; same = same_refl r }
]

-- What a growing heap and a growing index keep.
module _ (heap heap' : Heap) (index index' : List ℕ) (grows : Grows heap heap')
    (keep : (i p : ℕ) → get_elem? index i ≡ some p → get_elem? index' i ≡ some p) (cur : ℕ) where
  IsLeaf-same :
      (attr : Text) (p : ℕ) (r s : AttrDictionaryRec)
      → IsSame r s
      → IsLeaf index attr p r
      → IsLeaf index' attr p s
  IsLeaf-same attr p r s same leaf = record {
    at = leaf.at;
    numbered = same.map_index ∙ leaf.numbered;
    listed = keep leaf.at p leaf.listed;
    boxed = same.has_map ∙ leaf.boxed;
    named = same.attribute ∙ leaf.named;
  }

  pub IsEntry-grows :
      (attr : Text) (p : ℕ) → IsEntry heap cur index attr p → IsEntry heap' cur index' attr p
  IsEntry-grows attr p e =
      let k = grows p e.target e.found in
      record {
        later = e.later;
        target = k.target;
        found = k.found;
        kind = elim e.kind [
          | inl (parent, bare) ↦ inl (k.same.map_index ∙ parent, bare)
          | inr leaf ↦ inr (IsLeaf-same attr p e.target k.target k.same leaf)
        ];
      }

  pub IsDict-grows :
      (dict : List (Text × ℕ)) → IsDict heap cur index dict → IsDict heap' cur index' dict
  IsDict-grows dict valid attr p h = IsEntry-grows attr p (valid attr p h)

module _ (heap heap' : Heap) (grows : Grows heap heap') (cur : ℕ) where
  pub IsIndexed-grows : (i p : ℕ) → IsIndexed heap cur i p → IsIndexed heap' cur i p
  IsIndexed-grows i p e =
      let k = grows p e.target e.found in
      record {
        later = e.later;
        target = k.target;
        found = k.found;
        numbered = k.same.map_index ∙ e.numbered;
      }

  pub IsRec-grows : (c : AttrDictionaryRec) → IsRec heap cur c → IsRec heap' cur c
  IsRec-grows c r = record {
    count = r.count;
    dict =
        IsDict-grows heap heap' c.dict_index c.dict_index grows (λ i p h. h) cur (entries c.dict)
          r.dict;
    index = λ i p h. IsIndexed-grows i p (r.index i p h);
  }

-- A record whose map and index are empty.
pub record IsFresh (r : AttrDictionaryRec) : Type 0 where
  pub none_counted : r.num_attributes ≡ 0
  pub no_entry : entries r.dict ≡ []
  pub no_index : r.dict_index ≡ []

IsFresh-IsRec : (heap : Heap) (cur : ℕ) (r : AttrDictionaryRec) → IsFresh r → IsRec heap cur r
unfolding lookup
IsFresh-IsRec heap cur r fresh = record {
  count = fresh.none_counted ∙ sym (ap length fresh.no_index);
  dict = λ attr p h.
      let found : none ≡ some p = sym (ap (lookup attr) fresh.no_entry) ∙ h in absurd (cc);
  index = λ i p h.
      let found : none ≡ some p = sym (ap (λ l. get_elem? l i) fresh.no_index) ∙ h in absurd (cc);
}

pub IsValid-append :
    (heap : Heap) (r : AttrDictionaryRec) → IsFresh r → IsValid heap → IsValid (heap ++ r ∷ [])
IsValid-append heap r fresh valid cur c h = elim (get_elem?-append_one heap r cur h) [
  | inl old ↦ IsRec-grows heap (heap ++ r ∷ []) (Grows-append heap r) cur c (valid cur c old)
  | inr (_, e) ↦
      subst (IsRec (heap ++ r ∷ []) cur) (sym e) (IsFresh-IsRec (heap ++ r ∷ []) cur r fresh)
]

pub IsValid-set :
    (heap : Heap) (cur : ℕ) (c c' : AttrDictionaryRec)
    → IsValid heap
    → get_elem? heap cur ≡ some c
    → IsSame c c'
    → IsRec heap cur c'
    → IsValid (set heap cur c')
IsValid-set heap cur c c' valid here same r p s h =
    let grows = Grows-set heap cur c c' here same in
    elim (ℕ_discrete cur p) [
      | yes e ↦
          let found = get_elem?-set_self heap cur c' (lt-length_of_get_elem? heap cur here) in
          let eq : c' ≡ s = cc in
          subst (λ q. IsRec (set heap cur c') q s) e
            (subst (IsRec (set heap cur c') cur) eq
              (IsRec-grows heap (set heap cur c') grows cur c' r))
      | no ne ↦
          IsRec-grows heap (set heap cur c') grows p s
            (valid p s (sym (get_elem?-set_ne heap cur p c' ne) ∙ h))
    ]

-- The records of a new mapper.
pub root-IsValid : IsValid (root_rec ∷ [])
root-IsValid zero c h =
    let e : root_rec ≡ c = cc in
    subst (IsRec (root_rec ∷ []) zero) e (
      IsFresh-IsRec (root_rec ∷ []) zero root_rec
        (record { none_counted = refl; no_entry = refl; no_index = refl }))
root-IsValid (suc cur) c h = cc
