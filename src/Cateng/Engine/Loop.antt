-- ===== src/Cateng/Engine/Loop.antt =====
-- applyCatSetMasks on a fuel above the number of open slots, and its effect.
use mathlib.Core.List.{Memᴰ}
use rulestone.Prelude.{
  ℕ, zero, suc, ◌<◌, ◌≡◌, refl, ◌∙◌, inl, inr, false, List, [], ◌∷◌, arith, ◌==◌, ==_iff,
  Bool-cases, ltb, lt→ltb, length, get_elem?-eq-get_or, if◌then◌else◌,
}
use rulestone.Prelude.Fault.{Outcome, done}
use rulestone.Types.{minus_one}
use rulestone.Cateng.MaskArray.{CatSetMask}
use rulestone.Cateng.Tables.{FilterTables}
use rulestone.Cateng.Engine.{
  Run, looked_up, count_match, report, each, complete, apply_to, apply_mask, apply_cat_set_masks,
}
use rulestone.Cateng.Engine.Effect.{
  mask_at, open_slots, IsLinked, AreLinked, IsReady, Effect-nil, Effect-cons,
}
use rulestone.Cateng.Engine.Store.{new_mask, stored, in_range, stored_fewer, stored-Effect}
use rulestone.Cateng.Engine.Branches.{Ends, ListEnds, StepEnds, skip_Effect}
use rulestone.Cateng.Engine.Propagation.{whole_Effect, counted_Growth}

module _ (t : FilterTables) (Source : CatSetMask → Type 0) where
  -- The call for the synthetic categories is skipped if there are none.
  nested-Ends :
      (fuel : ℕ) (recurse : List CatSetMask → Run → Outcome Run)
      → ListEnds t Source fuel recurse
      → (csm_list : List CatSetMask) (m : Run) → IsReady t m
      → ((c : CatSetMask) → Memᴰ c csm_list → IsLinked t c)
      → open_slots m.masks < fuel
      → Ends t Source csm_list m (if ltb 0 (length csm_list) then recurse csm_list m else done m)
  nested-Ends fuel recurse h [] m r l o = (m, refl, Effect-nil t Source r)
  nested-Ends fuel recurse h (c ∷ cs) m r l o =
      rw (lt→ltb 0 (suc (length cs)) (omega arith)) (h (c ∷ cs) m r l o)

  apply_mask_lem :
      (recurse : List CatSetMask → Run → Outcome Run) (csm : CatSetMask) (s : Run)
      → IsReady t s
      → (linked : IsLinked t csm)
      → apply_mask t recurse csm s ≡ apply_to t recurse csm linked.at (mask_at s linked.at) s
  unfolding apply_mask
  apply_mask_lem recurse csm s ready linked = simp (
    linked.index_eq,
    get_elem?-eq-get_or s.masks linked.at 0 (in_range t Source s csm ready linked),
  )

  module _ (fuel : ℕ) (recurse : List CatSetMask → Run → Outcome Run)
      (recurse_ends : ListEnds t Source fuel recurse) (links : AreLinked t) where
    fill-Ends :
        (s : Run) (csm : CatSetMask) (ready : IsReady t s) (linked : IsLinked t csm)
        → open_slots s.masks < suc fuel
        → (mask_at s linked.at == minus_one) ≡ false
        → new_mask t Source s csm ready linked ≡ minus_one
        → Ends t Source
            (csm ∷ [])
            s
            (complete t recurse linked.at (stored t Source s csm ready linked))
    unfolding complete
    fill-Ends s csm ready linked room not_full fills =
        let g = counted_Growth t Source s csm ready linked not_full fills in
        let (s₂, ends, e) =
          nested-Ends fuel recurse recurse_ends linked.filter.cat_set_masks
            (count_match (stored t Source s csm ready linked)) g.ready
            (links.synthetic linked.at linked.filter linked.is_filter)
            (omega (arith, stored_fewer t Source s csm ready linked not_full fills)) in
        (
          report linked.filter.rule_set s₂,
          rw linked.is_filter (rw ends),
          whole_Effect t Source s csm ready linked not_full fills s₂ e,
        )

    write-Ends :
        (s : Run) (csm : CatSetMask) (ready : IsReady t s) (linked : IsLinked t csm)
        → open_slots s.masks < suc fuel
        → (mask_at s linked.at == minus_one) ≡ false
        → Ends t Source (csm ∷ []) s (apply_to t recurse csm linked.at (mask_at s linked.at) s)
    unfolding apply_to
    write-Ends s csm ready linked room not_full =
        elim (Bool-cases (new_mask t Source s csm ready linked == minus_one)) [
          | inl fills ↦
              rw (not_full, fills)
                (fill-Ends s csm ready linked room not_full ((==_iff _ minus_one).0 fills))
          | inr stays ↦
              rw (not_full, stays)
                (
                  stored t Source s csm ready linked,
                  refl,
                  stored-Effect t Source s csm ready linked not_full stays,
                )
        ]

    apply_to-Ends :
        (s : Run) (csm : CatSetMask) (ready : IsReady t s) (linked : IsLinked t csm)
        → open_slots s.masks < suc fuel
        → Ends t Source (csm ∷ []) s (apply_to t recurse csm linked.at (mask_at s linked.at) s)
    unfolding apply_to
    apply_to-Ends s csm ready linked room = elim (Bool-cases (mask_at s linked.at == minus_one)) [
      | inl is_full ↦ (
        looked_up s,
        rw is_full,
        skip_Effect t Source csm s linked ready ((==_iff _ minus_one).0 is_full),
      )
      | inr not_full ↦ write-Ends s csm ready linked room not_full
    ]

    step_ends : StepEnds t Source (suc fuel) (apply_mask t recurse)
    step_ends csm s ready linked room =
        let (s', ends, e) = apply_to-Ends s csm ready linked room in
        (s', apply_mask_lem recurse csm s ready linked ∙ ends, e)

  each_ends :
      (fuel : ℕ) (g : CatSetMask → Run → Outcome Run)
      → StepEnds t Source fuel g
      → ListEnds t Source fuel (each g)
  unfolding each
  each_ends fuel g step [] s ready linked room = (s, refl, Effect-nil t Source ready)
  each_ends fuel g step (csm ∷ rest) s ready linked room =
      let (s₁, first, e) = step csm s ready (linked csm (Memᴰ.head refl)) room in
      let (s₂, others, h) =
        each_ends fuel g step rest s₁ e.growth.ready (λ c m. linked c (Memᴰ.tail m))
          (omega (arith, e.growth.fewer)) in
      (s₂, rw first others, Effect-cons t Source e h)

  -- With a fuel above the number of open slots the call ends, without a panic, and has its effect.
  pub apply_ends : AreLinked t → (fuel : ℕ) → ListEnds t Source fuel (apply_cat_set_masks t fuel)
  unfolding apply_cat_set_masks
  apply_ends links zero csm_list s ready linked room = absurd (omega arith)
  apply_ends links (suc fuel) csm_list s ready linked room =
      each_ends (suc fuel) (apply_mask t (apply_cat_set_masks t fuel))
        (step_ends fuel (apply_cat_set_masks t fuel) (apply_ends links fuel) links) csm_list s ready
        linked room
