-- ===== src/Objectmap/Strings.antt =====
-- Go's package strings, as the paths of attributes use it: a separator is one byte.
pub mod Split
use rulestone.Prelude.{Bool, true, false, ℕ, List, [], ◌∷◌, ◌++◌, ◌==◌, if◌then◌else◌}
use rulestone.Condition.Operand.{Text}
use rulestone.Condition.Operand.Numerals.{text_eq}

-- One more byte of the text is read: it ends a piece, or it comes before the first piece.
unfoldable pub cut : Bool → ℕ → List Text → List Text
cut true c pieces = [] ∷ pieces
cut false c [] = (c ∷ []) ∷ []
cut false c (piece ∷ pieces) = (c ∷ piece) ∷ pieces

-- strings.Split(s, sep): one piece more than there are separators.
unfoldable pub split : Text → ℕ → List Text
unfolding cut
split [] sep = [] ∷ []
split (c ∷ cs) sep = cut (c == sep) c (split cs sep)

-- strings.SplitN(s, sep, 2), whose second piece is missing where there is no separator.
unfoldable pub split_rest : Text → ℕ → Text × List Text
split_rest [] sep = ([], [])
split_rest (c ∷ cs) sep =
    let (before, after) = split_rest cs sep in
    if c == sep then ([], cs ∷ []) else (c ∷ before, after)

-- strings.Join(pieces, sep)
unfoldable pub join : List Text → ℕ → Text
join [] sep = []
join (piece ∷ []) sep = piece
join (piece ∷ next ∷ pieces) sep = piece ++ sep ∷ join (next ∷ pieces) sep

-- strings.HasSuffix(s, suffix)
unfoldable pub has_suffix : Text → Text → Bool
has_suffix [] suffix = text_eq [] suffix
has_suffix (c ∷ cs) suffix = if text_eq (c ∷ cs) suffix then true else has_suffix cs suffix

-- What is left of a text that starts with a dot, `if strings.HasPrefix(s, ".") { s = s[1:] }`.
unfoldable pub drop_dot : Text → Text
drop_dot [] = []
drop_dot (c ∷ cs) = if c == b'.' then cs else c ∷ cs

abbrev pub brackets : Text
brackets = b'[' ∷ b']' ∷ []
