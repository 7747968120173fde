-- ===== src/Objectmap/Path/Shape.antt =====
-- The segments that a path is split into.
use rulestone.Prelude.{
  ℕ, ◌≡◌, refl, sym, Bool, true, false, not, ◌||◌, Option, none, some, List, [], ◌∷◌, ◌++◌, ◌==◌,
  subst, All, Bool-cases, inl, inr, arith,
}
use rulestone.Prelude.Int.{ℤ, pos, negsuc, ◌==ℤ◌}
use rulestone.Prelude.Fault.{Outcome, done, panic, out_of_fuel}
use rulestone.Condition.Operand.{Text}
use rulestone.Condition.Operand.Numerals.{text_eq, parse_int}
use rulestone.Objectmap.Strings.{cut, split, has_suffix, drop_dot, brackets}
use rulestone.Objectmap.Strings.Split.{IsFree, split-IsFree_sep, split-IsFree_of}
use rulestone.Objectmap.Path.{
  Result, ok, err, PathSegment, path_segment, minus_one, star, plus, negative, indexed,
  new_path_segment, and_then, split_all, add_segment, segments_of, split_segments,
}

-- All parts but the last are free of brackets.
abbrev pub IsClean : List Text → Type 0
IsClean [] = ⊥
IsClean (part ∷ []) = Unit {0}
IsClean (part ∷ next ∷ parts) = IsFree b'[' part × IsClean (next ∷ parts)

cut-IsClean :
    (b : Bool) (c : ℕ) (pieces : List Text)
    → (c == b'[') ≡ false
    → IsClean pieces
    → IsClean (cut b c pieces)
unfolding cut
cut-IsClean b c [] h clean = absurd clean
cut-IsClean true c (p ∷ ps) h clean = (tt, clean)
cut-IsClean false c (p ∷ []) h clean = tt
cut-IsClean false c (p ∷ q ∷ ps) h clean = ((h, clean.0), clean.1)

split-IsClean : (t : Text) → IsFree b'[' t → IsClean (split t b'.')
unfolding split
split-IsClean [] h = tt
split-IsClean (c ∷ cs) h = cut-IsClean (c == b'.') c (split cs b'.') h.0 (split-IsClean cs h.1)

split-brackets-IsClean : (t : Text) → IsFree b'[' t → IsClean (split (t ++ brackets) b'.')
unfolding split cut
split-brackets-IsClean [] h = tt
split-brackets-IsClean (c ∷ cs) h =
    cut-IsClean (c == b'.') c (split (cs ++ brackets) b'.') h.0 (split-brackets-IsClean cs h.1)

-- A text without a bracket does not end in brackets, and one that brackets were added to does.
pub has_suffix-IsFree : (t : Text) → IsFree b'[' t → has_suffix t brackets ≡ false
unfolding has_suffix text_eq
has_suffix-IsFree [] h = refl
has_suffix-IsFree (c ∷ cs) h = rw h.0 (has_suffix-IsFree cs h.1)

pub has_suffix-append : (t : Text) → has_suffix (t ++ brackets) brackets ≡ true
unfolding has_suffix text_eq
has_suffix-append [] = refl
has_suffix-append (c ∷ cs) = ground (arith, has_suffix-append cs)

drop_dot-IsFree : (t : Text) → IsFree b'[' t → IsFree b'[' (drop_dot t)
unfolding drop_dot
drop_dot-IsFree [] h = tt
drop_dot-IsFree (c ∷ cs) h = elim (Bool-cases (c == b'.')) [
  | inl dot ↦ rw dot h.1
  | inr other ↦ rw other h
]

-- One segment, and a path of them.
pub record IsSegment (s : PathSegment) : Type 0 where
  pub clean : IsClean (split s.segment b'.')
  pub suffix : has_suffix s.segment brackets ≡ not (s.index ==ℤ minus_one)

abbrev pub IsPath : List PathSegment → Type 0
IsPath [] = Unit {0}
IsPath (s ∷ []) = IsSegment s
IsPath (s ∷ next ∷ segments) =
    IsSegment s × ((s.index ==ℤ minus_one) ≡ false) × IsPath (next ∷ segments)

-- No panic, and a path unless there is an error.
abbrev pub Gives : {A : Type 0} → (A → Type 0) → Outcome (Result A) → Type 0
Gives P (done (ok a)) = P a
Gives P (done (err e)) = Unit {0}
Gives P panic = ⊥
Gives P out_of_fuel = ⊥

abbrev IsArray : Text → PathSegment → Type 0
IsArray t s = (s.segment ≡ t) × ((s.index ==ℤ minus_one) ≡ false)

indexed-Gives : (t q : Text) (n : Option ℤ) → Gives (IsArray t) (indexed true t q n)
unfolding indexed negative
indexed-Gives t q none = tt
indexed-Gives t q (some (pos n)) = (refl, refl)
indexed-Gives t q (some (negsuc n)) = tt

IsArray-segment : (t q : Text) → Gives (IsArray t) (new_path_segment true t q true)
unfolding new_path_segment
IsArray-segment t q = elim (Bool-cases (text_eq q star || text_eq q plus)) [
  | inl many ↦ rw many (refl, refl)
  | inr other ↦ rw other (elim (Bool-cases (text_eq q [])) [
    | inl whole ↦ rw whole (refl, refl)
    | inr number ↦ rw number (indexed-Gives t q (parse_int q))
  ])
]

IsArray-IsSegment :
    (t : Text) (s : PathSegment) → IsFree b'[' t → IsArray (t ++ brackets) s → IsSegment s
IsArray-IsSegment t s h array = record {
  clean = subst (λ u. IsClean (split u b'.')) (sym array.0) (split-brackets-IsClean t h);
  suffix = rw array.1 (rw array.0 (has_suffix-append t));
}

last-IsSegment : (t : Text) → IsFree b'[' t → IsSegment (path_segment t [] minus_one)
last-IsSegment t h = record { clean = split-IsClean t h; suffix = has_suffix-IsFree t h }

cons-IsPath :
    (s : PathSegment) (segments : List PathSegment)
    → IsSegment s
    → (s.index ==ℤ minus_one) ≡ false
    → IsPath segments
    → IsPath (s ∷ segments)
cons-IsPath s [] one array path = one
cons-IsPath s (next ∷ segments) one array path = (one, array, path)

last_of : (t : Text) → new_path_segment true t [] false ≡ done (ok (path_segment t [] minus_one))
unfolding new_path_segment text_eq
last_of t = refl

and_cons :
    (t : Text) (m : Outcome (Result PathSegment)) (rest : Outcome (Result (List PathSegment)))
    → IsFree b'[' t
    → Gives (IsArray (t ++ brackets)) m
    → Gives IsPath rest
    → Gives IsPath (and_then m (λ s. and_then rest (λ r. done (ok (s ∷ r)))))
and_cons t (done (ok s)) (done (ok r)) h array path =
    cons-IsPath s r (IsArray-IsSegment t s h array) array.1 path
and_cons t (done (ok s)) (done (err e)) h array path = tt
and_cons t (done (ok s)) panic h array path = path
and_cons t (done (ok s)) out_of_fuel h array path = path
and_cons t (done (err e)) rest h array path = tt
and_cons t panic rest h array path = array
and_cons t out_of_fuel rest h array path = array

segments_of-Gives :
    (path : Text) (parts : List Text)
    → All (IsFree b'[') parts
    → Gives IsPath (segments_of true path parts)
unfolding segments_of add_segment
segments_of-Gives path [] h = tt
segments_of-Gives path (attr ∷ []) h =
    let free = drop_dot-IsFree attr h.0 in
    elim (Bool-cases (not (text_eq (drop_dot attr) []) || not (has_suffix path brackets))) [
      | inl kept ↦ rw kept (rw (last_of (drop_dot attr)) (last-IsSegment (drop_dot attr) free))
      | inr dropped ↦ rw dropped tt
    ]
segments_of-Gives path (attr ∷ quantifier ∷ rest) h =
    let name = drop_dot attr ++ brackets in
    let later = segments_of-Gives path rest h.1.1 in
    elim (Bool-cases
      (not (text_eq (drop_dot attr ++ brackets) []) || not (has_suffix path brackets))) [
        | inl kept ↦ rw kept (
            and_cons (drop_dot attr) _ _ (drop_dot-IsFree attr h.0)
              (IsArray-segment name quantifier) later)
        | inr dropped ↦ rw dropped later
      ]

All-append :
    (xs ys : List Text) → All (IsFree b'[') xs → All (IsFree b'[') ys → All (IsFree b'[') (xs ++ ys)
All-append [] ys hx hy = hy
All-append (x ∷ xs) ys hx hy = (hx.0, All-append xs ys hx.1 hy)

split_all-IsFree :
    (pieces : List Text) → All (IsFree b'[') pieces → All (IsFree b'[') (split_all pieces)
unfolding split_all
split_all-IsFree [] h = tt
split_all-IsFree (p ∷ ps) h =
    All-append (split p b']') (split_all ps) (split-IsFree_of p b'[' b']' h.0)
      (split_all-IsFree ps h.1)

-- With a mapper every path is split without a panic.
pub split_segments-Gives : (path : Text) → Gives IsPath (split_segments true path)
unfolding split_segments
split_segments-Gives path = elim (Bool-cases (text_eq path [])) [
  | inl empty ↦ rw empty tt
  | inr other ↦ rw other (
      segments_of-Gives path (split_all (split path b'['))
        (split_all-IsFree (split path b'[') (split-IsFree_sep path b'[')))
]
