-- ===== src/Engine/StringMatcher.antt =====
-- engine/lookups.go: StringMatcher, which maps the patterns that occur in a text to the categories
-- that they were added with. The automaton is github.com/cloudflare/ahocorasick, a parameter.
pub mod Matches
pub mod Correct
use rulestone.Prelude.{
  ℕ, Option, none, some, List, [], ◌∷◌, ◌++◌, length, get_elem?, set, if◌then◌else◌,
}
use rulestone.Prelude.Fault.{Outcome, done, panic, or_panic, ◌>>=◌}
use rulestone.Condition.Operand.{Text}
use rulestone.Condition.Operand.Numerals.{text_eq}

-- The indices of the patterns that a matcher finds in a text.
pub record AhoCorasick : Type 1 where
  pub Matcher : Type 0
  pub new_string_matcher : List Text → Matcher
  pub match_text : Matcher → Text → List ℕ

-- `C` is the type of the categories, which are operands.
pub record StringMatcher (m : AhoCorasick) (C : Type 0) : Type 0 where
  pub machine : Option m.Matcher
  pub patterns : List Text
  pub categories : List (List C)
  pub match_map : List (Text × ℕ)

-- index, ok := sm.matchMap[pattern]
unfoldable pub find_pattern : Text → List (Text × ℕ) → Option ℕ
unfolding text_eq
find_pattern pattern [] = none
find_pattern pattern ((key, index) ∷ entries) =
    if text_eq key pattern then some index else find_pattern pattern entries

unfoldable pub collect : {C : Type 0} → List (List C) → List ℕ → Outcome (List C)
collect categories [] = done []
collect categories (hit ∷ hits) = do
  cats ← or_panic (get_elem? categories hit)
  rest ← collect categories hits
  done (cats ++ rest)

module _ {m : AhoCorasick} {C : Type 0} where
  unfoldable pub new_matcher : StringMatcher m C
  new_matcher = record { machine = none; patterns = []; categories = []; match_map = [] }

  -- A pattern that is new to the matcher.
  unfoldable pub add_new : Text → C → StringMatcher m C → StringMatcher m C
  add_new pattern category sm = record sm {
    match_map = (pattern, length sm.patterns) ∷ sm.match_map;
    patterns = sm.patterns ++ pattern ∷ [];
    categories = sm.categories ++ (category ∷ []) ∷ [];
  }

  unfoldable pub add_to : ℕ → C → StringMatcher m C → Outcome (StringMatcher m C)
  add_to index category sm = do
    cats ← or_panic (get_elem? sm.categories index)
    done (record sm { categories = set sm.categories index (cats ++ category ∷ []) })

  unfoldable pub add_pattern : Text → C → StringMatcher m C → Outcome (StringMatcher m C)
  unfolding find_pattern add_new add_to
  add_pattern pattern category sm = elim (find_pattern pattern sm.match_map) [
    | none ↦ done (add_new pattern category sm)
    | some index ↦ add_to index category sm
  ]

  unfoldable pub build : StringMatcher m C → Outcome (StringMatcher m C)
  build sm = elim sm.machine [
    | some machine ↦ panic
    | none ↦ done (record sm { machine = some (m.new_string_matcher sm.patterns) })
  ]

  unfoldable pub match_pattern : StringMatcher m C → Text → Outcome (List C)
  unfolding collect
  match_pattern sm text = do
    machine ← or_panic sm.machine
    collect sm.categories (m.match_text machine text)
