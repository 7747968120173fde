-- ===== src/Engine/StringMatcher/Correct.antt =====
-- A StringMatcher that was filled, built and asked for a text.
use mathlib.Core.List.Memᴰ
use mathlib.Core.List.{Memᴰ}
use rulestone.Prelude.{
  ℕ, ◌<◌, ◌≡◌, refl, ap, sym, ◌∙◌, subst, ◌↔◌, ◌⊎◌, inl, inr, none, some, List, [], ◌∷◌, ◌++◌, Bool,
  true, arith, length, get_elem?, get_or, lt-length_of_get_elem?, get_elem?-eq-get_or,
}
use rulestone.Prelude.Fault.{Outcome, done, ◌>>=◌}
use rulestone.Condition.Operand.{Text}
use rulestone.Engine.StringMatcher.{
  AhoCorasick, StringMatcher, new_matcher, add_pattern, build, collect, match_pattern, find_pattern,
}
use rulestone.Engine.StringMatcher.Matches.{some_injective, HasPattern, IsSound, add-Holds}

-- No pattern of the list stands at two positions.
abbrev pub IsDistinct : List Text → Type 0
IsDistinct patterns =
    (i j : ℕ) (p : Text) → get_elem? patterns i ≡ some p → get_elem? patterns j ≡ some p → i ≡ j

-- What is asked of the automaton: of patterns without duplicates, it reports the index of each pattern
-- that it finds, and no other index. `found` is its test of one pattern.
abbrev pub FindsPatterns : AhoCorasick → (Text → Text → Bool) → Type 0
FindsPatterns m found =
    (patterns : List Text) (text : Text)
    → IsDistinct patterns
    → (i : ℕ)
    → Memᴰ i (m.match_text (m.new_string_matcher patterns) text)
      ↔ ((p : Text) × (get_elem? patterns i ≡ some p) × (found p text ≡ true))

module _ {C : Type 0} where
  -- The hits that stand for a category.
  abbrev InHits : List (List C) → List ℕ → C → Type 0
  InHits categories hits x = (i : ℕ) × Memᴰ i hits × Memᴰ x (get_or categories i [])

  collect_lem :
      (categories : List (List C)) (hits : List ℕ)
      → ((i : ℕ) → Memᴰ i hits → i < length categories)
      → (cats : List C) × (collect categories hits ≡ done cats)
        × ((x : C) → Memᴰ x cats ↔ InHits categories hits x)
  unfolding collect
  collect_lem categories [] inside =
      ([], refl, λ x. (λ mem. absurd (Memᴰ.not-nil mem), λ (i, mem, at). absurd (Memᴰ.not-nil mem)))
  collect_lem categories (hit ∷ hits) inside =
      let (rest, e, iff) = collect_lem categories hits (λ i mem. inside i (Memᴰ.tail mem)) in
      (
        get_or categories hit [] ++ rest,
        rw (get_elem?-eq-get_or categories hit [] (inside hit (Memᴰ.head refl)), e) refl,
        λ x. (
          λ mem. elim (Memᴰ.append_cases (get_or categories hit []) mem) [
            | inl here ↦ (hit, Memᴰ.head refl, here)
            | inr there ↦ let (i, found, at) = (iff x).0 there in (i, Memᴰ.tail found, at)
          ],
          λ (i, mem, at). elim (Memᴰ.cases_cons mem) [
            | inl e ↦ Memᴰ.append_left rest (subst (λ j. Memᴰ x (get_or categories j [])) e at)
            | inr later ↦ Memᴰ.append_right (get_or categories hit []) ((iff x).1 (i, later, at))
          ],
        ),
      )

pair_eq : {A B : Type 0} {a a' : A} {b b' : B} → a ≡ a' → b ≡ b' → ◌≡◌ {A = A × B} (a, b) (a', b')
pair_eq h k = cc

module _ {m : AhoCorasick} {C : Type 0} where
  -- AddPattern for each pair in turn.
  abbrev pub add_all : List (Text × C) → StringMatcher m C → Outcome (StringMatcher m C)
  add_all [] sm = done sm
  add_all ((pattern, category) ∷ pairs) sm = add_pattern pattern category sm >>= add_all pairs

  add_all-Holds :
      (pairs : List (Text × C)) (sm : StringMatcher m C)
      → IsSound sm
      → (sm' : StringMatcher m C) × (add_all pairs sm ≡ done sm')
        × IsSound sm'
        × ((q : Text) (x : C) → HasPattern sm' q x ↔ (HasPattern sm q x ⊎ Memᴰ (q, x) pairs))
        × (sm'.machine ≡ sm.machine)
  add_all-Holds [] sm sound = (
    sm,
    refl,
    sound,
    λ q x. (λ w. inl w, elim [ inl w ↦ w | inr n ↦ absurd (Memᴰ.not-nil n) ]),
    refl,
  )
  add_all-Holds ((pattern, category) ∷ pairs) sm sound =
      let (sm₁, e₁, sound₁, holds₁, same₁) = add-Holds pattern category sm sound in
      let (sm₂, e₂, sound₂, holds₂, same₂) = add_all-Holds pairs sm₁ sound₁ in
      (
        sm₂,
        rw e₁ e₂,
        sound₂,
        λ q x. (
          λ w. elim ((holds₂ q x).0 w) [
            | inl w₁ ↦ elim ((holds₁ q x).0 w₁) [
              | inl w₀ ↦ inl w₀
              | inr (e, e') ↦ inr (Memᴰ.head (pair_eq e e'))
            ]
            | inr later ↦ inr (Memᴰ.tail later)
          ],
          elim [
            | inl w₀ ↦ (holds₂ q x).1 (inl ((holds₁ q x).1 (inl w₀)))
            | inr mem ↦ elim (Memᴰ.cases_cons mem) [
              | inl e ↦
                  (holds₂ q x).1 (inl ((holds₁ q x).1 (inr (ap (λ z. z.0) e, ap (λ z. z.1) e))))
              | inr later ↦ (holds₂ q x).1 (inr later)
            ]
          ],
        ),
        same₂ ∙ same₁,
      )

module _ {C : Type 0} where
  -- The pairs, then Build, then Match.
  abbrev pub run : AhoCorasick → List (Text × C) → Text → Outcome (List C)
  run m pairs text =
      add_all {m = m} pairs new_matcher >>= build >>= λ built. match_pattern built text

module _ {m : AhoCorasick} {C : Type 0} where
  new-IsSound : IsSound {m = m} {C = C} new_matcher
  unfolding new_matcher find_pattern
  new-IsSound = record { sizes = refl; found = λ pattern i h. cc; known = λ pattern i h. cc }

  none_at_first : (q : Text) (x : C) → HasPattern {m = m} {C = C} new_matcher q x → ⊥
  unfolding new_matcher
  none_at_first q x w = Memᴰ.not-nil w.listed

  asked :
      (pairs : List (Text × C)) (text : Text) (sm : StringMatcher m C)
      → add_all pairs new_matcher ≡ done sm
      → sm.machine ≡ none
      → run m pairs text
        ≡ collect sm.categories (m.match_text (m.new_string_matcher sm.patterns) text)
  unfolding build match_pattern
  asked pairs text sm e machine = rw (e, machine) refl

module _ (m : AhoCorasick) {C : Type 0} where
  -- For an automaton that, of patterns without duplicates, reports exactly those that it finds, a new
  -- matcher that pairs of a pattern and a category are added to, that is built and then asked for a
  -- text, returns, without a panic, the categories of the pairs whose pattern is found in the text, and
  -- no other category, also where pairs share a pattern.
  pub matched_iff :
      (found : Text → Text → Bool) (pairs : List (Text × C)) (text : Text)
      → FindsPatterns m found
      → (cats : List C) × (run m pairs text ≡ done cats)
        × ((x : C) → Memᴰ x cats ↔ ((p : Text) × Memᴰ (p, x) pairs × (found p text ≡ true)))
  unfolding new_matcher
  matched_iff found pairs text finds =
      let (sm, e, sound, holds, same) = add_all-Holds pairs new_matcher new-IsSound in
      let distinct : IsDistinct sm.patterns =
        λ i j p at other. some_injective (sym (sound.known p i at) ∙ sound.known p j other) in
      let hits = m.match_text (m.new_string_matcher sm.patterns) text in
      let (cats, collected, iff) = collect_lem sm.categories hits (λ i mem.
        let (p, at, is_found) = (finds sm.patterns text distinct i).0 mem in
        omega (arith, sound.sizes, lt-length_of_get_elem? sm.patterns i at)) in
      (
        cats,
        asked pairs text sm e same ∙ collected,
        λ x. (
          λ mem.
              let (i, hit, listed) = (iff x).0 mem in
              let (p, at, is_found) = (finds sm.patterns text distinct i).0 hit in
              elim ((holds p x).0 (record { at = i; is_pattern = at; listed = listed })) [
                | inl early ↦ absurd (none_at_first p x early)
                | inr pair ↦ (p, pair, is_found)
              ],
          λ (p, pair, is_found).
              let w = (holds p x).1 (inr pair) in
              (iff x).1 (
                w.at,
                (finds sm.patterns text distinct w.at).1 (p, w.is_pattern, is_found),
                w.listed,
              ),
        ),
      )
