-- ===== src/Objectmap/Path.antt =====
-- newPathSegment and splitSegments: a path such as `person.children[0].name` as a list of segments.
pub mod Shape
use rulestone.Prelude.{
  ℕ, zero, suc, Bool, true, false, not, ◌||◌, Option, none, some, List, [], ◌∷◌, ◌++◌,
  if◌then◌else◌,
}
use rulestone.Prelude.Int.{ℤ, pos, negsuc, is_neg}
use rulestone.Prelude.Fault.{Outcome, done, panic, ◌>>=◌}
use rulestone.Condition.Operand.{Text}
use rulestone.Condition.Operand.Numerals.{text_eq, parse_int}
use rulestone.Objectmap.Strings.{split, has_suffix, drop_dot, brackets}

-- The errors of this package. The first is that of strconv.Atoi, which is not logged.
pub data PathError : Type 0 where
  bad_index : Text → PathError
  negative_index : Text → ℤ → PathError
  not_available : Text → PathError
  not_an_array : Text → PathError

-- A value with an error, of which one is nil.
pub data Result (A : Type 0) : Type 0 where
  ok : A → Result A
  err : PathError → Result A

-- `index` is -1 for an attribute that is not an array, and -2 for a whole array.
pub record PathSegment : Type 0 where
  pub segment : Text
  pub quantifier : Text
  pub index : ℤ

abbrev pub path_segment : Text → Text → ℤ → PathSegment
path_segment s q i = record { segment = s; quantifier = q; index = i }

abbrev pub star : Text
star = b'*' ∷ []

abbrev pub plus : Text
plus = b'+' ∷ []

abbrev pub minus_one : ℤ
minus_one = negsuc 0

abbrev pub minus_two : ℤ
minus_two = negsuc 1

-- The error for a negative index is made by the mapper, whose pointer is nil in a dictionary that is
-- not the root.
unfoldable pub negative : Bool → Text → ℤ → Outcome (Result PathSegment)
negative true segment index = done (err (negative_index segment index))
negative false segment index = panic

unfoldable pub indexed : Bool → Text → Text → Option ℤ → Outcome (Result PathSegment)
unfolding negative
indexed mapper segment quantifier none = done (err (bad_index quantifier))
indexed mapper segment quantifier (some index) =
    if is_neg index
    then negative mapper segment index
    else done (ok (path_segment segment [] index))

unfoldable pub new_path_segment : Bool → Text → Text → Bool → Outcome (Result PathSegment)
unfolding indexed
new_path_segment mapper segment quantifier is_array =
    if text_eq quantifier star || text_eq quantifier plus
    then done (ok (path_segment segment quantifier (pos 0)))
    else if text_eq quantifier []
    then done (ok (path_segment segment quantifier (if is_array then minus_two else minus_one)))
    else if is_array
    then indexed mapper segment quantifier (parse_int quantifier)
    else done (ok (path_segment segment [] minus_one))

abbrev pub and_then :
    {A B : Type 0} → Outcome (Result A) → (A → Outcome (Result B)) → Outcome (Result B)
and_then m f = m >>= λ r. elim r [ ok a ↦ f a | err e ↦ done (err e) ]

unfoldable pub split_all : List Text → List Text
unfolding split
split_all [] = []
split_all (p ∷ ps) = split p b']' ++ split_all ps

-- The empty attribute after `foo[0]` is recorded, the one after `foo[]` is not.
unfoldable pub add_segment :
    Bool
    → Text
    → Text
    → Text
    → Bool
    → Outcome (Result (List PathSegment))
    → Outcome (Result (List PathSegment))
unfolding new_path_segment
add_segment mapper path attr quantifier is_array rest =
    if not (text_eq attr []) || not (has_suffix path brackets)
    then and_then (new_path_segment mapper attr quantifier is_array)
        (λ s. and_then rest (λ r. done (ok (s ∷ r))))
    else rest

unfoldable pub segments_of : Bool → Text → List Text → Outcome (Result (List PathSegment))
unfolding add_segment
segments_of mapper path [] = done (ok [])
segments_of mapper path (attr ∷ []) =
    add_segment mapper path (drop_dot attr) [] false (done (ok []))
segments_of mapper path (attr ∷ quantifier ∷ rest) =
    add_segment mapper path (drop_dot attr ++ brackets) quantifier true
      (segments_of mapper path rest)

unfoldable pub split_segments : Bool → Text → Outcome (Result (List PathSegment))
unfolding split_all segments_of
split_segments mapper path =
    if text_eq path [] then done (ok []) else segments_of mapper path (split_all (split path b'['))
