-- ===== src/Tests/Patterns.antt =====
-- engine/lookups.go with an automaton that tries its patterns one after the other.
use mathlib.Core.List.Memᴰ
use mathlib.Core.List.{Memᴰ}
use rulestone.Prelude.{
  ℕ, zero, suc, ◌≡◌, refl, sym, subst, ◌↔◌, Bool, true, false, ◌||◌, some, List, [], ◌∷◌, arith,
  ◌==◌, get_elem?, map, inl, inr, if◌then◌else◌, ◌&&◌,
}
use rulestone.Prelude.Fault.{done}
use rulestone.Condition.Operand.{Text}
use rulestone.Engine.StringMatcher.{AhoCorasick}
use rulestone.Engine.StringMatcher.Matches.{some_injective}
use rulestone.Engine.StringMatcher.Correct.{FindsPatterns, run, matched_iff}

starts_with : Text → Text → Bool
starts_with [] text = true
starts_with (c ∷ cs) [] = false
starts_with (c ∷ cs) (d ∷ ds) = c == d && starts_with cs ds

occurs : Text → Text → Bool
unfolding starts_with
occurs p [] = starts_with p []
occurs p (c ∷ cs) = starts_with p (c ∷ cs) || occurs p cs

-- The indices, from 0 on, of the patterns that occur.
hits : List Text → Text → List ℕ
unfolding occurs
hits [] text = []
hits (p ∷ ps) text =
    let later = map suc (hits ps text) in if occurs p text then 0 ∷ later else later

naive : AhoCorasick
unfolding hits
naive = record { Matcher = List Text; new_string_matcher = λ patterns. patterns; match_text = hits }

abbrev Found : List Text → Text → ℕ → Type 0
Found ps text i = (p : Text) × (get_elem? ps i ≡ some p) × (occurs p text ≡ true)

zero_not_suc : (n : ℕ) → 0 ≡ suc n → ⊥
zero_not_suc n h = omega arith

shifted : (l : List ℕ) (i : ℕ) → Memᴰ i (map suc l) → (j : ℕ) × (suc j ≡ i) × Memᴰ j l
shifted l i mem = let (j, at, e) = Memᴰ.of_map (λ n. suc n) l mem in (j, e, at)

none_first : (l : List ℕ) → Memᴰ 0 (map suc l) → ⊥
none_first l mem = let (j, e, at) = shifted l 0 mem in zero_not_suc j (sym e)

suc_of_shifted : (l : List ℕ) (i : ℕ) → Memᴰ (suc i) (map suc l) → Memᴰ i l
suc_of_shifted l i mem =
    let (j, e, at) = shifted l (suc i) mem in subst (λ k. Memᴰ k l) (omega arith) at

-- With the hits of the later patterns moved up by one, and the first pattern put before them.
first_hit : (b : Bool) (l : List ℕ) → Memᴰ 0 (if b then 0 ∷ map suc l else map suc l) ↔ (b ≡ true)
first_hit true l = (λ mem. refl, λ e. Memᴰ.head refl)
first_hit false l = (λ mem. absurd (none_first l mem), λ e. cc)

later_hit :
    (b : Bool) (l : List ℕ) (i : ℕ)
    → Memᴰ (suc i) (if b then 0 ∷ map suc l else map suc l) ↔ Memᴰ i l
later_hit true l i = (
  λ mem. elim (Memᴰ.cases_cons mem) [
    | inl e ↦ absurd (zero_not_suc i (sym e))
    | inr later ↦ suc_of_shifted l i later
  ],
  λ mem. Memᴰ.tail (Memᴰ.map (λ n. suc n) mem),
)
later_hit false l i = (suc_of_shifted l i, λ mem. Memᴰ.map (λ n. suc n) mem)

hits_iff : (ps : List Text) (text : Text) (i : ℕ) → Memᴰ i (hits ps text) ↔ Found ps text i
unfolding hits
hits_iff [] text i = (λ mem. absurd (Memᴰ.not-nil mem), λ (p, at, o). cc)
hits_iff (p ∷ ps) text zero = (
  λ mem. (p, refl, (first_hit (occurs p text) (hits ps text)).0 mem),
  λ (q, at, o).
      (first_hit (occurs p text) (hits ps text)).1
        (subst (λ r. occurs r text ≡ true) (sym (some_injective at)) o),
)
hits_iff (p ∷ ps) text (suc i) = (
  λ mem. (hits_iff ps text i).0 ((later_hit (occurs p text) (hits ps text) i).0 mem),
  λ w. (later_hit (occurs p text) (hits ps text) i).1 ((hits_iff ps text i).1 w),
)

naive-finds : FindsPatterns naive occurs
unfolding naive
naive-finds patterns text distinct = hits_iff patterns text

-- "ab" and "b" with the categories 1 and 2, "c" with 3, in "xab".
abbrev pairs : List (Text × ℕ)
pairs = (b'a' ∷ b'b' ∷ [], 1) ∷ (b'b' ∷ [], 2) ∷ (b'c' ∷ [], 3) ∷ (b'b' ∷ [], 4) ∷ []

abbrev text : Text
text = b'x' ∷ b'a' ∷ b'b' ∷ []

matched_iff_example :
    (cats : List ℕ) × (run naive pairs text ≡ done cats)
    × ((x : ℕ) → Memᴰ x cats ↔ ((p : Text) × Memᴰ (p, x) pairs × (occurs p text ≡ true)))
matched_iff_example = matched_iff naive occurs pairs text naive-finds
