-- ===== src/Cateng/Engine/Correct.antt =====
-- What MatchEvent returns, for tables that are well formed.
use mathlib.Core.List.{Memᴰ}
use rulestone.Prelude.{
  ℕ, ◌+◌, ◌≤◌, ◌<◌, ◌≡◌, refl, ap, ◌∙◌, ◌↔◌, Bool, false, List, [], ◌∷◌, arith, length, get_elem?,
  replicate, get_or-replicate, length-replicate,
}
use rulestone.Prelude.Int.{is_neg}
use rulestone.Prelude.Fault.{done, ◌>>=◌}
use rulestone.Types.{Category}
use rulestone.Cateng.Tables.{FilterTables}
use rulestone.Cateng.Engine.{
  Run, Metrics, each, visit_category, process_defaults, start, match_fuel, run_event,
  CategoryEngine, match_event,
}
use rulestone.Cateng.Engine.Fired.{IsReported}
use rulestone.Cateng.Engine.Effect.{open_slots, Effect, Effect-append}
use rulestone.Cateng.Engine.Event.{event_masks, brought, Brings}
use rulestone.Cateng.Engine.Fixpoint.{reported_iff}
use rulestone.Cateng.Engine.WellFormed.{IsWellFormed}
use rulestone.Cateng.Engine.Stages.{visit_ends, defaults_end}
use rulestone.Cateng.Engine.Fixpoint.{start-IsReady, reported_iff}

open-le-length : (vs : List ℕ) → open_slots vs ≤ length vs
open-le-length [] = omega arith
open-le-length (v ∷ vs) = ground (arith, open-le-length vs)

module _ (t : FilterTables) (wf : IsWellFormed t) (metrics : Metrics) (cats : List Category) where
  start_fuel : open_slots (start t metrics).masks < match_fuel t
  unfolding start match_fuel
  start_fuel = omega (
    arith,
    open-le-length (start t metrics).masks,
    length-replicate {A = ℕ} (length t.neg_cats + length t.cat_set_filters) 0,
  )

  run_lem :
      (flags : List Bool) (s : Run)
      → each
          (visit_category t (match_fuel t))
          cats
          (replicate (length t.default_categories) false, start t metrics)
        ≡ done (flags, s)
      → run_event t metrics cats ≡ process_defaults t (match_fuel t) flags 0 t.default_cat_list s
  unfolding run_event
  run_lem flags s p =
      ap (λ r. r >>= λ (x, y). process_defaults t (match_fuel t) x 0 t.default_cat_list y) p

  run_ends :
      ((c : Category) → Memᴰ c cats → is_neg c ≡ false)
      → (s : Run) × (run_event t metrics cats ≡ done s)
        × Effect t (Brings t cats) (brought t cats) (start t metrics) s
  run_ends signs =
      let (flags, s₁, first, e₁, size, at) =
        visit_ends t wf cats (match_fuel t) cats (replicate (length t.default_categories) false)
          (start t metrics) signs (length-replicate (length t.default_categories) false)
          (start-IsReady t metrics) start_fuel in
      let (s₂, second, e₂) =
        defaults_end t wf cats (match_fuel t) flags 0 t.default_cat_list s₁
          (λ j. ap (get_elem? t.default_cat_list) (omega arith)) size
          (λ j. ground (arith, at j, get_or-replicate (length t.default_categories) j false))
          e₁.growth.ready (omega (arith, e₁.growth.fewer, start_fuel)) in
      (
        s₂,
        run_lem flags s₁ first ∙ second,
        Effect-append t (Brings t cats) (event_masks t cats) _ e₁ e₂,
      )

-- For well-formed tables and an event of categories that are not negative, MatchEvent returns, and
-- the rules that it returns are exactly those of the sets that are matched by the masks that the
-- event brings: those of its categories, and of the negations of the defaults that it lacks.
pub match_event-refines :
    (f : CategoryEngine) (cats : List Category)
    → IsWellFormed f.filter_tables
    → ((c : Category) → Memᴰ c cats → is_neg c ≡ false)
    → (f' : CategoryEngine) × (rules : List ℕ) × (match_event f cats ≡ done (f', rules))
      × (f'.filter_tables ≡ f.filter_tables)
      × ((r : ℕ) → Memᴰ r rules ↔ IsReported f.filter_tables (Brings f.filter_tables cats) r)
unfolding match_event
match_event-refines f cats wf signs =
    let (s, ends, e) = run_ends f.filter_tables wf f.metrics cats signs in
    (
      record f { metrics = s.metrics },
      s.result,
      rw ends,
      refl,
      reported_iff f.filter_tables cats f.metrics s e,
    )
