-- ===== src/Engine/StringMatcher/Matches.antt =====
-- What a StringMatcher holds after a pattern was added.
use mathlib.Core.List.Memᴰ
use mathlib.Core.List.{Memᴰ}
use rulestone.Prelude.{
  ℕ, zero, suc, ◌<◌, ◌≡◌, refl, ap, sym, ◌∙◌, subst, ◌↔◌, ◌⊎◌, inl, inr, some, List, [], ◌∷◌, ◌++◌,
  Bool, true, false, arith, ◌==◌, ==_iff, length, get_elem?, get_or, set, length-append, length-set,
  if◌then◌else◌, if-cases, Option-cases, lt-length_of_get_elem?, get_elem?-eq-get_or,
  get_elem?-keep, get_elem?-last, get_elem?-append_one, Bool-cases, none,
}
use rulestone.Prelude.Fault.{done}
use rulestone.Condition.Operand.{Text}
use rulestone.Condition.Operand.Numerals.{text_eq}
use rulestone.Condition.Operand.Agree.{text_eq_sound}
use rulestone.Objectmap.TextMap.{text_eq_iff}
use rulestone.Engine.StringMatcher.{
  AhoCorasick, StringMatcher, find_pattern, add_new, add_to, add_pattern,
}

module _ {A : Type 0} where
  get_or-append_one :
      (xs : List A) (y : A) (i : ℕ) (d : A)
      → get_or (xs ++ y ∷ []) i d ≡ (if i == length xs then y else get_or xs i d)
  get_or-append_one [] y zero d = refl
  get_or-append_one [] y (suc i) d = ground arith
  get_or-append_one (x ∷ xs) y zero d = ground arith
  get_or-append_one (x ∷ xs) y (suc i) d = ground (arith, get_or-append_one xs y i d)

none_ne_some : {A : Type 0} {a : A} → none ≡ some a → ⊥
none_ne_some h = cc

pub some_injective : {A : Type 0} {a b : A} → some a ≡ some b → a ≡ b
some_injective h = cc

module _ {C : Type 0} where
  listed_if :
      (b : Bool) (old : List C) (c x : C)
      → Memᴰ x (if b then old ++ c ∷ [] else old) ↔ (Memᴰ x old ⊎ ((b ≡ true) × (x ≡ c)))
  listed_if true old c x = (
    λ mem. elim (Memᴰ.append_cases old mem) [
      | inl left ↦ inl left
      | inr right ↦ inr (refl, Memᴰ.eq_of_singleton right)
    ],
    elim [
      | inl left ↦ Memᴰ.append_left (c ∷ []) left
      | inr (_, e) ↦ Memᴰ.append_right old (Memᴰ.head e)
    ],
  )
  listed_if false old c x = (λ mem. inl mem, elim [ inl mem ↦ mem | inr (h, e) ↦ cc ])

  listed-lt :
      (cats : List (List C)) (at : ℕ) {x : C} → Memᴰ x (get_or cats at []) → at < length cats
  listed-lt [] at mem = absurd (Memᴰ.not-nil mem)
  listed-lt (l ∷ cats) zero mem = omega arith
  listed-lt (l ∷ cats) (suc at) mem = omega (arith, listed-lt cats at mem)

  -- The category joins the list at `index`, and the other lists stay.
  abbrev After : List (List C) → ℕ → C → List (List C) → Type 0
  After cats index category cats' =
      (at : ℕ)
      → get_or cats' at []
        ≡ (if index == at then get_or cats at [] ++ category ∷ [] else get_or cats at [])

  set-After :
      (cats : List (List C)) (index : ℕ) (category : C)
      → index < length cats
      → After cats index category (set cats index (get_or cats index [] ++ category ∷ []))
  set-After [] index category inside at = absurd (omega arith)
  set-After (l ∷ cats) zero category inside zero = refl
  set-After (l ∷ cats) zero category inside (suc at) = ground arith
  set-After (l ∷ cats) (suc index) category inside zero = ground arith
  set-After (l ∷ cats) (suc index) category inside (suc at) =
      ground (arith, set-After cats index category (omega arith) at)

  append_After :
      (cats : List (List C)) (category : C)
      → After cats (length cats) category (cats ++ (category ∷ []) ∷ [])
  append_After [] category zero = refl
  append_After [] category (suc at) = ground arith
  append_After (l ∷ cats) category zero = ground arith
  append_After (l ∷ cats) category (suc at) = ground (arith, append_After cats category at)

module _ {m : AhoCorasick} {C : Type 0} where
  -- The matcher holds the category under the pattern.
  pub record HasPattern (sm : StringMatcher m C) (pattern : Text) (category : C) : Type 0 where
    pub at : ℕ
    pub is_pattern : get_elem? sm.patterns at ≡ some pattern
    pub listed : Memᴰ category (get_or sm.categories at [])

  pub record IsSound (sm : StringMatcher m C) : Type 0 where
    pub sizes : length sm.categories ≡ length sm.patterns
    pub found :
        (pattern : Text) (i : ℕ)
        → find_pattern pattern sm.match_map ≡ some i
        → get_elem? sm.patterns i ≡ some pattern
    pub known :
        (pattern : Text) (i : ℕ)
        → get_elem? sm.patterns i ≡ some pattern
        → find_pattern pattern sm.match_map ≡ some i

  -- What a matcher holds after `pattern` was added with `category`.
  abbrev Holds : StringMatcher m C → Text → C → StringMatcher m C → Type 0
  Holds sm pattern category sm' =
      (q : Text) (x : C)
      → HasPattern sm' q x ↔ (HasPattern sm q x ⊎ ((q ≡ pattern) × (x ≡ category)))

  -- A matcher with the old patterns at their positions, `pattern` at `index`, and the category added
  -- to the list there, holds what the old one holds and the new pair.
  After-Holds :
      (sm sm' : StringMatcher m C) (pattern : Text) (category : C) (index : ℕ)
      → length sm.categories ≡ length sm.patterns
      → ((i : ℕ) (q : Text) → get_elem? sm.patterns i ≡ some q → get_elem? sm'.patterns i ≡ some q)
      → get_elem? sm'.patterns index ≡ some pattern
      → After sm.categories index category sm'.categories
      → Holds sm pattern category sm'
  After-Holds sm sm' pattern category index sizes keep here after q x = (forth, back)
    where
      forth : HasPattern sm' q x → HasPattern sm q x ⊎ ((q ≡ pattern) × (x ≡ category))
      forth w =
          elim ((listed_if (index == w.at) (get_or sm.categories w.at []) category x).0
            (subst (Memᴰ x) (after w.at) w.listed)) [
              | inl old ↦
                  let r =
                    get_elem?-eq-get_or sm.patterns w.at []
                      (omega (arith, sizes, listed-lt sm.categories w.at old)) in
                  inl (record {
                    at = w.at;
                    is_pattern =
                        r ∙ (sym (keep w.at (get_or sm.patterns w.at []) r) ∙ w.is_pattern);
                    listed = old;
                  })
              | inr (same, e) ↦ inr (
                some_injective (
                    sym w.is_pattern
                    ∙ (ap (get_elem? sm'.patterns) (sym ((==_iff index w.at).0 same)) ∙ here)),
                e,
              )
            ]

      back : HasPattern sm q x ⊎ ((q ≡ pattern) × (x ≡ category)) → HasPattern sm' q x
      back (inl w) = record {
        at = w.at;
        is_pattern = keep w.at q w.is_pattern;
        listed = subst (Memᴰ x) (sym (after w.at)) (
            (listed_if (index == w.at) (get_or sm.categories w.at []) category x).1 (inl w.listed));
      }
      back (inr (e₁, e₂)) = record {
        at = index;
        is_pattern = here ∙ ap (λ t. some t) (sym e₁);
        listed = subst (Memᴰ x) (sym (after index)) (
            (listed_if (index == index) (get_or sm.categories index []) category x).1
              (inr ((==_iff index index).1 refl, e₂)));
      }

  new-IsSound :
      (pattern : Text) (category : C) (sm : StringMatcher m C)
      → IsSound sm
      → find_pattern pattern sm.match_map ≡ none
      → IsSound (add_new pattern category sm)
  unfolding find_pattern add_new
  new-IsSound pattern category sm sound fresh = record {
    sizes = omega (
      arith,
      length-append sm.categories ((category ∷ []) ∷ []),
      length-append sm.patterns (pattern ∷ []),
      sound.sizes,
    );
    found = λ q i h.
        elim (if-cases (text_eq pattern q) (some (length sm.patterns)) (find_pattern q sm.match_map)
          h) [
            | inl (same, e) ↦
                ap (get_elem? (sm.patterns ++ pattern ∷ [])) (sym (some_injective e))
                ∙ (get_elem?-last sm.patterns pattern
                    ∙ ap (λ t. some t) (text_eq_sound pattern q same))
            | inr (other, e) ↦ get_elem?-keep sm.patterns (pattern ∷ []) i (sound.found q i e)
          ];
    known = λ q i h. elim (get_elem?-append_one sm.patterns pattern i h) [
      | inl old ↦ elim (Bool-cases (text_eq pattern q)) [
        | inl same ↦
            let e : pattern ≡ q = text_eq_sound pattern q same in
            let clash : none ≡ some i =
              sym fresh ∙ ap (λ t. find_pattern t sm.match_map) e ∙ sound.known q i old in
            absurd (none_ne_some clash)
        | inr differs ↦ rw differs (sound.known q i old)
      ]
      | inr (last, e) ↦
          let same : text_eq pattern q ≡ true = (text_eq_iff pattern q).1 (sym e) in
          rw same (ap some (sym last))
    ];
  }

  new-Holds :
      (pattern : Text) (category : C) (sm : StringMatcher m C)
      → IsSound sm
      → Holds sm pattern category (add_new pattern category sm)
  unfolding add_new
  new-Holds pattern category sm sound =
      After-Holds sm (add_new pattern category sm) pattern category (length sm.patterns) sound.sizes
        (λ i q. get_elem?-keep sm.patterns (pattern ∷ []) i) (get_elem?-last sm.patterns pattern)
        (subst (λ n. After sm.categories n category (sm.categories ++ (category ∷ []) ∷ []))
          sound.sizes (append_After sm.categories category))

  -- Adding a pattern succeeds on a sound matcher, and keeps it sound.
  pub add-Holds :
      (pattern : Text) (category : C) (sm : StringMatcher m C)
      → IsSound sm
      → (sm' : StringMatcher m C) × (add_pattern pattern category sm ≡ done sm')
        × IsSound sm'
        × Holds sm pattern category sm'
        × (sm'.machine ≡ sm.machine)
  unfolding add_pattern add_to add_new
  add-Holds pattern category sm sound = elim (Option-cases (find_pattern pattern sm.match_map)) [
    | inl fresh ↦ (
      add_new pattern category sm,
      rw (fresh, add_pattern) refl,
      new-IsSound pattern category sm sound fresh,
      new-Holds pattern category sm sound,
      refl,
    )
    | inr (index, known) ↦
        let cats = get_or sm.categories index [] in
        let inside : index < length sm.categories = omega (
          arith,
          sound.sizes,
          lt-length_of_get_elem? sm.patterns index (sound.found pattern index known),
        ) in
        let sm' : StringMatcher m C = record sm {
          categories = set sm.categories index (cats ++ category ∷ []);
        } in
        (
          sm',
          rw (known, add_pattern, get_elem?-eq-get_or sm.categories index [] inside, add_to) refl,
          record {
            sizes = length-set sm.categories index (cats ++ category ∷ []) ∙ sound.sizes;
            found = sound.found;
            known = sound.known;
          },
          After-Holds sm sm' pattern category index sound.sizes (λ i q h. h)
              (sound.found pattern index known) (set-After sm.categories index category inside),
          refl,
        )
  ]
