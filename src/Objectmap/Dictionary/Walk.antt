-- ===== src/Objectmap/Dictionary/Walk.antt =====
-- The walk of AttributePathToAddress along the segments of a path.
use rulestone.Prelude.{
  ℕ, ◌≡◌, refl, ap, sym, ◌∙◌, subst, ◌⊎◌, inl, inr, true, false, not, Option, none, some, List, [],
  ◌∷◌, ◌++◌, get_elem?, arith, Option-cases,
}
use rulestone.Prelude.Int.{ℤ, pos}
use rulestone.Prelude.Fault.{done, Returns, Returns-bind}
use rulestone.Condition.Operand.{Text}
use rulestone.Objectmap.Strings.{has_suffix, brackets}
use rulestone.Objectmap.TextMap.{lookup}
use rulestone.Objectmap.Path.{PathSegment, minus_one}
use rulestone.Objectmap.Path.Shape.{IsSegment, IsPath}
use rulestone.Objectmap.Dictionary.{
  AttrDictionaryRec, Heap, entries, known, step, register_in, walk, address_of,
}
use rulestone.Objectmap.Dictionary.Valid.{
  is_made, IsLeaf, IsEntry, IsValid, same_refl, Grows, Grows-trans,
}
use rulestone.Objectmap.Dictionary.Parents.{Unchanged}
use rulestone.Objectmap.Dictionary.Register.{IsStepped, register_in-IsStepped}

-- A record that is a leaf is known.
pub known-leaf :
    (heap : Heap) (c r : AttrDictionaryRec) (attr : Text) (p i : ℕ)
    → lookup attr (entries c.dict) ≡ some p
    → get_elem? heap p ≡ some r
    → r.map_index ≡ pos i
    → known heap c attr ≡ done (some p)
unfolding known
known-leaf heap c r attr p i listed found numbered = rw (listed, found, numbered, known)

pub known-parent :
    (heap : Heap) (c r : AttrDictionaryRec) (attr : Text) (p : ℕ)
    → lookup attr (entries c.dict) ≡ some p
    → get_elem? heap p ≡ some r
    → r.map_index ≡ minus_one
    → known heap c attr ≡ done none
unfolding known
known-parent heap c r attr p listed found numbered = rw (listed, found, numbered, known)

pub known-none :
    (heap : Heap) (c : AttrDictionaryRec) (attr : Text)
    → lookup attr (entries c.dict) ≡ none
    → known heap c attr ≡ done none
unfolding known
known-none heap c attr h = rw (h, known)

pub step-known :
    (heap : Heap) (cur : ℕ) (c : AttrDictionaryRec) (s : PathSegment) (p : ℕ)
    → get_elem? heap cur ≡ some c
    → known heap c s.segment ≡ done (some p)
    → step heap cur s ≡ done (heap, p)
unfolding step
step-known heap cur c s p here h = rw here (rw h refl)

pub step-unknown :
    (heap : Heap) (cur : ℕ) (c : AttrDictionaryRec) (s : PathSegment)
    → get_elem? heap cur ≡ some c
    → known heap c s.segment ≡ done none
    → step heap cur s ≡ register_in heap cur c s c.dict
unfolding step
step-unknown heap cur c s here h = rw here (rw h refl)

module _ (heap : Heap) (cur : ℕ) (c : AttrDictionaryRec) (s : PathSegment) (dict : List (Text × ℕ))
    (here : get_elem? heap cur ≡ some c) (mapped : c.dict ≡ some dict) (segment : IsSegment s)
    (valid : IsValid heap) where
  registered : known heap c s.segment ≡ done none → Returns (IsStepped heap cur s) (step heap cur s)
  registered h =
      subst (Returns (IsStepped heap cur s)) (sym (step-unknown heap cur c s here h))
        (register_in-IsStepped heap cur c s dict here mapped segment valid)

  on_entry :
      (p : ℕ)
      → lookup s.segment (entries c.dict) ≡ some p
      → (e : IsEntry heap cur c.dict_index s.segment p)
      → ((e.target.map_index ≡ minus_one) × (has_suffix s.segment brackets ≡ false))
        ⊎ IsLeaf c.dict_index s.segment p e.target
      → Returns (IsStepped heap cur s) (step heap cur s)
  on_entry p h e (inl (parent, bare)) =
      registered (known-parent heap c e.target s.segment p h e.found parent)
  on_entry p h e (inr leaf) =
      subst (Returns (IsStepped heap cur s))
        (sym (
          step-known heap cur c s p here
            (known-leaf heap c e.target s.segment p leaf.at h e.found leaf.numbered)))
        (record {
          valid = valid;
          grows = λ q r f. record { target = r; found = f; same = same_refl r };
          unchanged = λ q r b f. f;
          later = e.later;
          source = c;
          here = here;
          listed = h;
          target = e.target;
          found = e.found;
          leaf = leaf;
        })

  pub step-IsStepped : Returns (IsStepped heap cur s) (step heap cur s)
  step-IsStepped = elim (Option-cases (lookup s.segment (entries c.dict))) [
    | inl h ↦ registered (known-none heap c s.segment h)
    | inr (p, h) ↦ let e = (valid cur c here).dict s.segment p h in on_entry p h e e.kind
  ]

-- The address and the records after a walk, and the same walk again over these records.
pub record IsWalked (segments : List PathSegment) (heap : Heap) (cur : ℕ) (r : Heap × List ℤ)
    : Type 0 where
  pub valid : IsValid r.0
  pub grows : Grows heap r.0
  pub unchanged : Unchanged cur heap r.0
  pub again : walk segments r.0 cur ≡ done r

-- A record with a map, where there is a segment to look up.
abbrev pub IsReady : List PathSegment → AttrDictionaryRec → Type 0
IsReady [] c = Unit {0}
IsReady (s ∷ segments) c = (dict : List (Text × ℕ)) × (c.dict ≡ some dict)

is_made-some :
    (d : Option (List (Text × ℕ))) → is_made d ≡ true → (dict : List (Text × ℕ)) × (d ≡ some dict)
is_made-some none h = cc
is_made-some (some dict) h = (dict, refl)

next-IsReady :
    (s : PathSegment) (segments : List PathSegment) (heap : Heap) (cur : ℕ) (r : Heap × ℕ)
    → IsPath (s ∷ segments)
    → (e : IsStepped heap cur s r) → IsReady segments e.target
next-IsReady s [] heap cur r path e = tt
next-IsReady s (next ∷ segments) heap cur r path e =
    is_made-some e.target.dict (e.leaf.boxed ∙ path.0.suffix ∙ ap not path.1)

tail-IsPath :
    (s : PathSegment) (segments : List PathSegment) → IsPath (s ∷ segments) → IsPath segments
tail-IsPath s [] path = tt
tail-IsPath s (next ∷ segments) path = path.2

head-IsSegment :
    (s : PathSegment) (segments : List PathSegment) → IsPath (s ∷ segments) → IsSegment s
head-IsSegment s [] path = path
head-IsSegment s (next ∷ segments) path = path.0

walk-again :
    (s : PathSegment) (segments : List PathSegment) (heap : Heap) (cur : ℕ) (r : Heap × ℕ)
    (w : Heap × List ℤ)
    → (e : IsStepped heap cur s r) → (k : IsWalked segments r.0 r.1 w)
    → walk (s ∷ segments) w.0 cur ≡ done (w.0, address_of e.target.map_index s ++ w.1)
unfolding walk
walk-again s segments heap cur r w e k =
    let same = k.grows r.1 e.target e.found in
    rw
      (step-known w.0 cur e.source s r.1 (k.unchanged cur e.source e.later e.here) (
        known-leaf w.0 e.source same.target s.segment r.1 e.leaf.at e.listed same.found
          (same.same.map_index ∙ e.leaf.numbered)))
      (rw same.found (rw k.again (rw same.same.map_index refl)))

pub walk-IsWalked :
    (segments : List PathSegment) (heap : Heap) (cur : ℕ) (c : AttrDictionaryRec)
    → get_elem? heap cur ≡ some c
    → IsReady segments c
    → IsPath segments
    → IsValid heap
    → Returns (IsWalked segments heap cur) (walk segments heap cur)
unfolding walk
walk-IsWalked [] heap cur c here ready path valid = record {
  valid = valid;
  grows = λ q r f. record { target = r; found = f; same = same_refl r };
  unchanged = λ q r b f. f;
  again = refl;
}
walk-IsWalked (s ∷ segments) heap cur c here ready path valid =
    Returns-bind (IsStepped heap cur s) (IsWalked (s ∷ segments) heap cur) _ _
      (step-IsStepped heap cur c s ready.0 here ready.1 (head-IsSegment s segments path) valid)
      (λ (heap', next) e. rw e.found (
        Returns-bind (IsWalked segments heap' next) (IsWalked (s ∷ segments) heap cur) _ _
          (walk-IsWalked segments heap' next e.target e.found
            (next-IsReady s segments heap cur (heap', next) path e) (tail-IsPath s segments path)
            e.valid)
          (λ (heap'', rest) k. record {
            valid = k.valid;
            grows = Grows-trans heap heap' heap'' e.grows k.grows;
            unchanged = λ q r b f. k.unchanged q r (omega (arith, e.later)) (e.unchanged q r b f);
            again = walk-again s segments heap cur (heap', next) (heap'', rest) e k;
          })))
