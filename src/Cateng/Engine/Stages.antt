-- ===== src/Cateng/Engine/Stages.antt =====
-- The two loops of MatchEvent, over the event's categories and over those with a default.
use mathlib.Core.List.{Memᴰ}
use rulestone.Prelude.{
  ℕ, suc, ◌+◌, ◌<◌, ◌≡◌, refl, ap, sym, ◌∙◌, subst, inl, inr, Bool, true, false, ◌||◌, Option, none,
  some, List, [], ◌∷◌, ◌++◌, arith, ◌==◌, ==_iff, Bool-cases, Option-cases, lt→ltb, length,
  get_elem?, get_or, get_elem?-eq-get_or, set, length-set, get_or-set_if, if◌then◌else◌,
}
use native.Mathlib.Nat.{add-zero}
use rulestone.Prelude.Int.{is_neg, ◌==ℤ◌, ==ℤ_iff}
use rulestone.Prelude.Fault.{done, or_panic, ◌>>=◌}
use rulestone.Types.{Category}
use rulestone.Types.CatMap.{lookup}
use rulestone.Cateng.MaskArray
use rulestone.Cateng.MaskArray.{CatSetMask}
use rulestone.Cateng.Tables.{FilterTables}
use rulestone.Cateng.Engine.{
  Run, each, note_default, visit_category, apply_default, process_defaults, apply_cat_set_masks,
}
use rulestone.Cateng.Engine.Effect.{open_slots, IsReady, Effect, Effect-nil, Effect-append}
use rulestone.Cateng.Engine.Event.{member, masks_of, event_masks, neg_masks, default_masks, Brings}
use rulestone.Cateng.Engine.WellFormed.{IsWellFormed, get_total}
use rulestone.Cateng.Engine.Loop.{apply_ends}

module _ (t : FilterTables) where
  -- Does the category note the default at place `k`? Does one of several?
  abbrev notes : Category → ℕ → Bool
  notes cat k = elim (lookup cat t.default_categories) [ none ↦ false | some i ↦ i == k ]

  abbrev pub noted : List Category → ℕ → Bool
  noted [] k = false
  noted (cat ∷ cats) k = notes cat k || noted cats k

module _ (t : FilterTables) (wf : IsWellFormed t) where
  abbrev pub places : ℕ
  places = length t.default_categories

  note_default_lem :
      (cat : Category) (flags : List Bool)
      → length flags ≡ places
      → (flags' : List Bool) × (note_default t cat flags ≡ done flags')
        × (length flags' ≡ places)
        × ((k : ℕ) → get_or flags' k false ≡ (get_or flags k false || notes t cat k))
  unfolding note_default
  note_default_lem cat flags size = go (lookup cat t.default_categories) refl
    where
      go :
          (o : Option ℕ)
          → lookup cat t.default_categories ≡ o
          → (flags' : List Bool) × (note_default t cat flags ≡ done flags')
            × (length flags' ≡ places)
            × ((k : ℕ) → get_or flags' k false ≡ (get_or flags k false || notes t cat k))
      go none e = (flags, rw (e, note_default), size, λ k. rw (e, notes) (ground arith))
      go (some i) e =
          let inside : i < length flags = omega (arith, wf.numbers_bound cat i e) in
          (
            set flags i true,
            rw (e, note_default) (rw (lt→ltb i (length flags) inside)),
            omega (arith, length-set flags i true),
            λ k. rw (e, notes) (ground (arith, get_or-set_if flags i k true false inside)),
          )

  masks_of_lem :
      (c : Category) (l : List CatSetMask)
      → MaskArray.get t.cat_to_cat_set_mask c ≡ done l
      → masks_of t c ≡ l
  masks_of_lem c l e = rw (e, masks_of)

  visit_lem :
      (fuel : ℕ) (c : Category) (flags : List Bool) (s : Run) (flags' : List Bool)
      (csm_list : List CatSetMask) (s' : Run)
      → note_default t c flags ≡ done flags'
      → MaskArray.get t.cat_to_cat_set_mask c ≡ done csm_list
      → apply_cat_set_masks t fuel csm_list s ≡ done s'
      → visit_category t fuel c (flags, s) ≡ done (flags', s')
  visit_lem fuel c flags s flags' csm_list s' p q r = unfold visit_category in rw (p, q, r)

  -- The first loop: every category of the event is looked up, noted and its masks applied.
  module _ (cats : List Category) (fuel : ℕ) where
    pub visit_ends :
        (seen : List Category) (flags : List Bool) (s : Run)
        → ((c : Category) → Memᴰ c seen → is_neg c ≡ false)
        → length flags ≡ places
        → IsReady t s
        → open_slots s.masks < fuel
        → (flags' : List Bool) × (s' : Run) × (each (visit_category t fuel) seen (flags, s)
            ≡ done (flags', s'))
          × Effect t (Brings t cats) (event_masks t seen) s s'
          × (length flags' ≡ places)
          × ((k : ℕ) → get_or flags' k false ≡ (get_or flags k false || noted t seen k))
    unfolding each
    visit_ends [] flags s signs size ready room =
        (flags, s, refl, Effect-nil t (Brings t cats) ready, size, λ k. ground arith)
    visit_ends (c ∷ seen) flags s signs size ready room =
        let (flags₁, noted_ends, size₁, at₁) = note_default_lem c flags size in
        let (csm_list, get_ends) = get_total t wf c (signs c (Memᴰ.head refl)) in
        let (s₁, apply_done, e₁) =
          apply_ends t (Brings t cats) wf.links fuel csm_list s ready
            (wf.listed c csm_list get_ends) room in
        let (flags₂, s₂, rest_done, e₂, size₂, at₂) =
          visit_ends seen flags₁ s₁ (λ d m. signs d (Memᴰ.tail m)) size₁ e₁.growth.ready
            (omega (arith, e₁.growth.fewer)) in
        (
          flags₂,
          s₂,
          rw (visit_lem fuel c flags s flags₁ csm_list s₁ noted_ends get_ends apply_done) rest_done,
          subst (λ l. Effect t (Brings t cats) (l ++ event_masks t seen) s s₂)
              (sym (masks_of_lem c csm_list get_ends))
              (Effect-append t (Brings t cats) csm_list (event_masks t seen) e₁ e₂),
          size₂,
          λ k. ground (arith, at₁ k, at₂ k),
        )

  notes-eq :
      (c cat : Category) (k : ℕ)
      → lookup cat t.default_categories ≡ some k
      → notes t c k ≡ (c ==ℤ cat)
  notes-eq c cat k h = elim (Option-cases (lookup c t.default_categories)) [
    | inl e ↦ ground (arith, ==ℤ_iff c cat)
    | inr (i, e) ↦ elim (Bool-cases (i == k)) [
      | inl q ↦
          ground
            (arith, ==ℤ_iff c cat, wf.numbers_differ c cat k (e ∙ ap some ((==_iff i k).0 q)) h)
      | inr q ↦ ground (arith, ==ℤ_iff c cat)
    ]
  ]

  -- A category whose default stands at place `k` is noted exactly if the event has it.
  noted-eq-member :
      (cat : Category) (k : ℕ) (cats : List Category)
      → lookup cat t.default_categories ≡ some k
      → noted t cats k ≡ member cat cats
  noted-eq-member cat k [] h = refl
  noted-eq-member cat k (c ∷ cats) h =
      ground (arith, notes-eq c cat k h, noted-eq-member cat k cats h)

  -- `list` is what is left of the default categories from place `k` on.
  abbrev pub IsSuffix : ℕ → List Category → Type 0
  IsSuffix k list = (j : ℕ) → get_elem? list j ≡ get_elem? t.default_cat_list (k + j)

  default_lem :
      (fuel : ℕ) (cat neg_cat : Category) (csm_list : List CatSetMask) (s : Run)
      → lookup cat t.neg_cats ≡ some neg_cat
      → MaskArray.get t.cat_to_cat_set_mask neg_cat ≡ done csm_list
      → (apply_default t fuel cat s ≡ apply_cat_set_masks t fuel csm_list s)
        × (neg_masks t cat ≡ csm_list)
  default_lem fuel cat neg_cat csm_list s p q =
      (unfold apply_default in rw (p, q), rw (p, neg_masks) (masks_of_lem neg_cat csm_list q))

  process_lem :
      (fuel : ℕ) (flags : List Bool) (k : ℕ) (cat : Category) (list : List Category) (s s₁ : Run)
      (b : Bool)
      → get_elem? flags k ≡ some b
      → (if b then done s else apply_default t fuel cat s) ≡ done s₁
      → process_defaults t fuel flags k (cat ∷ list) s
        ≡ process_defaults t fuel flags (k + 1) list s₁
  unfolding process_defaults
  process_lem fuel flags k cat list s s₁ b p q =
      ap
        (λ o. or_panic o >>= λ noted.
          (if noted then done s else apply_default t fuel cat s)
          >>= process_defaults t fuel flags (k + 1) list)
        p
      ∙ ap (λ r. r >>= process_defaults t fuel flags (k + 1) list) q

  module _ (cats : List Category) (fuel : ℕ) where
    -- One category with a default: its negative masks are applied unless the event has it.
    default_ends :
        (cat : Category) (k : ℕ) (s : Run)
        → get_elem? t.default_cat_list k ≡ some cat
        → IsReady t s
        → open_slots s.masks < fuel
        → (s' : Run) × ((if member cat cats then done s else apply_default t fuel cat s) ≡ done s')
          × Effect t (Brings t cats) (if member cat cats then [] else neg_masks t cat) s s'
    default_ends cat k s at ready room = elim (Bool-cases (member cat cats)) [
      | inl here ↦ rw here (s, refl, Effect-nil t (Brings t cats) ready)
      | inr absent ↦
          let (neg_cat, found, sign) = wf.negated cat k at in
          let (csm_list, get_ends) = get_total t wf neg_cat sign in
          let (run_eq, masks_eq) = default_lem fuel cat neg_cat csm_list s found get_ends in
          let (s', ends, e) =
            apply_ends t (Brings t cats) wf.links fuel csm_list s ready
              (wf.listed neg_cat csm_list get_ends) room in
          rw (absent, masks_eq) (s', run_eq ∙ ends, e)
    ]

    pub defaults_end :
        (flags : List Bool) (k : ℕ) (list : List Category) (s : Run)
        → IsSuffix k list
        → length flags ≡ places
        → ((j : ℕ) → get_or flags j false ≡ noted t cats j)
        → IsReady t s
        → open_slots s.masks < fuel
        → (s' : Run) × (process_defaults t fuel flags k list s ≡ done s')
          × Effect t (Brings t cats) (default_masks t cats list) s s'
    unfolding process_defaults
    defaults_end flags k [] s suffix size at ready room =
        (s, refl, Effect-nil t (Brings t cats) ready)
    defaults_end flags k (cat ∷ list) s suffix size at ready room =
        let here : get_elem? t.default_cat_list k ≡ some cat =
          subst (λ i. get_elem? t.default_cat_list i ≡ some cat) (add-zero k) (sym (suffix 0)) in
        let place = wf.numbered cat k here in
        let flag : get_elem? flags k ≡ some (member cat cats) =
          get_elem?-eq-get_or flags k false (omega (arith, wf.numbers_bound cat k place))
          ∙ ap some (at k ∙ noted-eq-member cat k cats place) in
        let (s₁, one, e₁) = default_ends cat k s here ready room in
        let (s₂, rest, e₂) =
          defaults_end flags (k + 1) list s₁
            (λ j. suffix (suc j) ∙ ap (get_elem? t.default_cat_list) (omega arith)) size at
            e₁.growth.ready (omega (arith, e₁.growth.fewer)) in
        (
          s₂,
          process_lem fuel flags k cat list s s₁ (member cat cats) flag one ∙ rest,
          Effect-append t (Brings t cats) _ _ e₁ e₂,
        )
