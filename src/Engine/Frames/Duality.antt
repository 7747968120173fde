-- ===== src/Engine/Frames/Duality.antt =====
-- forAll and forSome under a Not.
use rulestone.Prelude.{
  ℕ, zero, suc, ◌+◌, ◌<◌, ◌≤◌, Option-cases, inl, inr, ◌≡◌, refl, ap, sym, ◌∙◌, none, some, List,
  [], ◌∷◌, ◌++◌, get_elem?, true, false, arith,
}
use rulestone.Prelude.Int.{ℤ, pos, negsuc}
use rulestone.Prelude.Fault.{
  Outcome, done, panic, out_of_fuel, or_panic, or_panic-eq-done, ◌>>=◌, >>=-eq-done,
}
use rulestone.Condition.Operand.{Text, Operand, boolean_operand, error_operand}
use rulestone.Objectmap.Path.{PathError, Result, ok, err}
use rulestone.Objectmap.Dictionary.{Dictionary}
use rulestone.Objectmap.Values.{
  Values, nil, scalar, slice, end, item, count, get, get_nested_attribute_by_address,
  get_num_elements_at_address, get_attribute_by_address, elements_of, available,
}
use rulestone.Objectmap.Address.{address_to_full_path}
use rulestone.Engine.Closures.{Eval, eval_not, not_next}
use rulestone.Engine.Frames.{
  Frame, EvalState, ArrayAddress, set_frame, round, unless_nil, all_next, some_next, all_from,
  some_from, on_elements, eval_for_all, eval_for_some,
}

abbrev Step : Type 0 → Type 0
Step F = Outcome (Operand F × EvalState F)

abbrev pub IsThere : {F : Type 0} → Frame F → Type 0
IsThere v = (v ≡ nil → ⊥)

module _ {F : Type 0} where
  some_all_next :
      (r : Operand F × EvalState F) (k k' : Operand F → EvalState F → Step F)
      → ((s : EvalState F)
          → (k (boolean_operand false) s >>= not_next) ≡ k' (boolean_operand true) s)
      → (some_next r k >>= not_next) ≡ (not_next r >>= λ r'. all_next r' k')
  unfolding some_next all_next not_next
  some_all_next (error_operand e, s) k k' h = refl
  some_all_next (boolean_operand true, s) k k' h = refl
  some_all_next (boolean_operand false, s) k k' h = h s
  some_all_next (_, s) k k' h = refl

  all_some_next :
      (r : Operand F × EvalState F) (k k' : Operand F → EvalState F → Step F)
      → ((s : EvalState F)
          → (k (boolean_operand true) s >>= not_next) ≡ k' (boolean_operand false) s)
      → (all_next r k >>= not_next) ≡ (not_next r >>= λ r'. some_next r' k')
  unfolding some_next all_next not_next
  all_some_next (error_operand e, s) k k' h = refl
  all_some_next (boolean_operand true, s) k k' h = h s
  all_some_next (boolean_operand false, s) k k' h = refl
  all_some_next (_, s) k k' h = refl

  bind_not :
      (m : Step F) (f f' : Operand F × EvalState F → Step F)
      → ((r : Operand F × EvalState F) → (f r >>= not_next) ≡ (not_next r >>= f'))
      → (m >>= f >>= not_next) ≡ (m >>= not_next >>= f')
  bind_not (done r) f f' h = h r
  bind_not panic f f' h = refl
  bind_not out_of_fuel f f' h = refl

  -- A round with the frame of its element.
  round-not :
      (level : ℕ) (eval : Eval (EvalState F) F) (f f' : Operand F × EvalState F → Step F)
      (element : Frame F) (s : EvalState F)
      → ((r : Operand F × EvalState F) → (f r >>= not_next) ≡ (not_next r >>= f'))
      → (round level eval f element s >>= not_next) ≡ round level (eval_not eval) f' element s
  unfolding round eval_not
  round-not level eval f f' element s h = at_frame (set_frame level element s)
    where
      at_frame :
          (m : Outcome (EvalState F))
          → (m >>= (λ t. eval t >>= f) >>= not_next) ≡ (m >>= λ t. eval t >>= not_next >>= f')
      at_frame (done t) = bind_not (eval t) f f' h
      at_frame panic = refl
      at_frame out_of_fuel = refl

  unless_nil-there {ℓ} : {A : Type ℓ} (v : Frame F) (x y : A) → IsThere v → unless_nil v x y ≡ y
  unfolding unless_nil
  unless_nil-there nil x y there = absurd (there refl)
  unless_nil-there (scalar o) x y there = refl
  unless_nil-there (slice vs) x y there = refl

  -- The elements from `i` on have values.
  abbrev Present : Frame F → List ℤ → ℕ → ℕ → Type 0
  Present frame address zero i = Unit {0}
  Present frame address (suc n) i =
      ((v : Frame F) × (get_nested_attribute_by_address frame (address ++ pos i ∷ []) ≡ done v)
        × IsThere v)
      × Present frame address n (suc i)

  module _ (level : ℕ) (eval : Eval (EvalState F) F) (frame : Frame F) (address : List ℤ) (n i : ℕ)
      (v : Frame F) (at : get_nested_attribute_by_address frame (address ++ pos i ∷ []) ≡ done v)
      (there : IsThere v) (result : Operand F) (s : EvalState F) where
    some_from-suc :
        some_from level eval frame address (suc n) i result s
        ≡ round level eval (λ r. some_next r (some_from level eval frame address n (suc i))) v s
    unfolding some_from
    some_from-suc = rw at (unless_nil-there {A = Step F} v (done (result, s)) _ there)

    all_from-suc :
        all_from level eval frame address (suc n) i result s
        ≡ round level eval (λ r. all_next r (all_from level eval frame address n (suc i))) v s
    unfolding all_from
    all_from-suc = rw at (unless_nil-there {A = Step F} v (done (boolean_operand false, s)) _ there)

  module _ (level : ℕ) (eval : Eval (EvalState F) F) (frame : Frame F) (address : List ℤ) where
    some_zero :
        (i : ℕ) (s : EvalState F)
        → (some_from level eval frame address 0 i (boolean_operand false) s >>= not_next)
          ≡ all_from level (eval_not eval) frame address 0 i (boolean_operand true) s
    unfolding some_from all_from not_next
    some_zero i s = refl

    all_zero :
        (i : ℕ) (s : EvalState F)
        → (all_from level eval frame address 0 i (boolean_operand true) s >>= not_next)
          ≡ some_from level (eval_not eval) frame address 0 i (boolean_operand false) s
    unfolding some_from all_from not_next
    all_zero i s = refl

    some_from-not :
        (n i : ℕ) (s : EvalState F)
        → Present frame address n i
        → (some_from level eval frame address n i (boolean_operand false) s >>= not_next)
          ≡ all_from level (eval_not eval) frame address n i (boolean_operand true) s
    some_from-not zero i s h = some_zero i s
    some_from-not (suc n) i s ((v, at, there), later) =
        ap (λ m. m >>= not_next)
          (some_from-suc level eval frame address n i v at there (boolean_operand false) s)
        ∙ round-not level eval _ _ v s
            (λ r. some_all_next r _ _ (λ t. some_from-not n (suc i) t later))
        ∙ sym (
            all_from-suc level (eval_not eval) frame address n i v at there (boolean_operand true)
              s)

    all_from-not :
        (n i : ℕ) (s : EvalState F)
        → Present frame address n i
        → (all_from level eval frame address n i (boolean_operand true) s >>= not_next)
          ≡ some_from level (eval_not eval) frame address n i (boolean_operand false) s
    all_from-not zero i s h = all_zero i s
    all_from-not (suc n) i s ((v, at, there), later) =
        ap (λ m. m >>= not_next)
          (all_from-suc level eval frame address n i v at there (boolean_operand true) s)
        ∙ round-not level eval _ _ v s
            (λ r. all_some_next r _ _ (λ t. all_from-not n (suc i) t later))
        ∙ sym (
            some_from-suc level (eval_not eval) frame address n i v at there (boolean_operand false)
              s)

  -- The values of a slice, none of them nil.
  abbrev pub AllThere : Values (Operand F) → Type 0
  AllThere end = Unit {0}
  AllThere (item v vs) = IsThere v × AllThere vs

  get-IsThere :
      (vs : Values (Operand F)) (i : ℕ)
      → AllThere vs
      → i < count vs
      → (v : Frame F) × (get vs i ≡ some v) × IsThere v
  unfolding get count
  get-IsThere end i h b = absurd (omega arith)
  get-IsThere (item v vs) zero h b = (v, refl, h.0)
  get-IsThere (item v vs) (suc i) h b = get-IsThere vs i h.1 (omega arith)

  step_none :
      (ws : Values (Operand F)) (j : ℕ) (address : List ℤ)
      → get ws j ≡ none
      → get_nested_attribute_by_address (slice ws) (pos j ∷ address) ≡ done nil
  unfolding get_nested_attribute_by_address
  step_none ws j address h = rw (h, get_nested_attribute_by_address)

  step_some :
      (ws : Values (Operand F)) (j : ℕ) (address : List ℤ) (w : Frame F)
      → get ws j ≡ some w
      → get_nested_attribute_by_address (slice ws) (pos j ∷ address)
        ≡ get_nested_attribute_by_address w address
  unfolding get_nested_attribute_by_address
  step_some ws j address w h = rw (h, get_nested_attribute_by_address)

  -- An element of an array is read through the array.
  pub get_nested-append :
      (frame : Frame F) (address : List ℤ) (vs : Values (Operand F)) (i : ℕ) (v : Frame F)
      → get_nested_attribute_by_address frame address ≡ done (slice vs)
      → get vs i ≡ some v
      → get_nested_attribute_by_address frame (address ++ pos i ∷ []) ≡ done v
  unfolding get_nested_attribute_by_address
  get_nested-append (slice ws) [] vs i v h e =
      let same : ws ≡ vs = cc in
      let found : get ws i ≡ some v = ap (λ us. get us i) same ∙ e in
      rw (found, get_nested_attribute_by_address)
  get_nested-append nil [] vs i v h e = cc
  get_nested-append (scalar o) [] vs i v h e = cc
  get_nested-append (slice ws) (pos j ∷ address) vs i v h e = elim (Option-cases (get ws j)) [
    | inl missing ↦
        let clash : done nil ≡ done (slice vs) = sym (step_none ws j address missing) ∙ h in cc
    | inr (w, found) ↦
        step_some ws j (address ++ pos i ∷ []) w found
        ∙ get_nested-append w address vs i v (sym (step_some ws j address w found) ∙ h) e
  ]
  get_nested-append (slice ws) (negsuc j ∷ address) vs i v h e = cc
  get_nested-append nil (j ∷ address) vs i v h e = cc
  get_nested-append (scalar o) (j ∷ address) vs i v h e = cc

  present :
      (frame : Frame F) (address : List ℤ) (vs : Values (Operand F)) (n i : ℕ)
      → get_nested_attribute_by_address frame address ≡ done (slice vs)
      → AllThere vs
      → i + n ≤ count vs
      → Present frame address n i
  present frame address vs zero i h there b = tt
  present frame address vs (suc n) i h there b =
      let (v, found, t) = get-IsThere vs i there (omega arith) in
      (
        (v, get_nested-append frame address vs i v h found, t),
        present frame address vs n (suc i) h there (omega arith),
      )

  -- Where the array of a forAll or forSome has elements, each of them has a value.
  abbrev pub HasElements : ArrayAddress → EvalState F → Type 0
  HasElements array s =
      (frame : Frame F) (vs : Values (Operand F))
      → get_elem? s.frames array.parent ≡ some frame
      → get_nested_attribute_by_address frame array.address ≡ done (slice vs)
      → AllThere vs

  elements_of-ok :
      (address : List ℤ) (r : Dictionary × Result (Frame F)) {d : Dictionary} {n : ℕ}
      → elements_of address r ≡ done (d, ok n)
      → (vs : Values (Operand F)) × (r ≡ (d, ok (slice vs))) × (n ≡ count vs)
  unfolding elements_of
  elements_of-ok address (e, ok (slice vs)) h = (vs, cc, cc)
  elements_of-ok address (e, ok nil) h =
      let (path, found, same) = >>=-eq-done (address_to_full_path e.heap 0 address) _ h in cc
  elements_of-ok address (e, ok (scalar o)) h =
      let (path, found, same) = >>=-eq-done (address_to_full_path e.heap 0 address) _ h in cc
  elements_of-ok address (e, err x) h = cc

  available-ok :
      (d : Dictionary) (address : List ℤ) (v : Frame F) {d' : Dictionary} {w : Frame F}
      → available d address v ≡ done (d', ok w)
      → v ≡ w
  unfolding available
  available-ok d address nil h =
      let (path, found, same) = >>=-eq-done (address_to_full_path d.heap 0 address) _ h in cc
  available-ok d address (scalar o) h = cc
  available-ok d address (slice vs) h = cc

  -- An array with a number of elements is a slice below the frame of its parent.
  get_num_elements_at_address-ok :
      (d : Dictionary) (address : List ℤ) (parent : ℕ) (frames : List (Frame F)) {d' : Dictionary}
      {n : ℕ}
      → get_num_elements_at_address d address parent frames ≡ done (d', ok n)
      → (frame : Frame F) × (vs : Values (Operand F)) × (get_elem? frames parent ≡ some frame)
        × (get_nested_attribute_by_address frame address ≡ done (slice vs))
        × (n ≡ count vs)
  unfolding get_num_elements_at_address get_attribute_by_address
  get_num_elements_at_address-ok d address parent frames h =
      let (frame, is_frame, h') = >>=-eq-done (or_panic (get_elem? frames parent)) _ h in
      let (r, is_r, h'') = >>=-eq-done (get_attribute_by_address d address frame) _ h' in
      let (vs, is_ok, same) = elements_of-ok address r h'' in
      let (v, is_v, is_there) =
        >>=-eq-done (get_nested_attribute_by_address frame address) _ is_r in
      let there : v ≡ slice vs = available-ok d address v (is_there ∙ ap done is_ok) in
      (frame, vs, or_panic-eq-done _ is_frame, is_v ∙ ap done there, same)

  module _ (error_text : PathError → Text) (array : ArrayAddress) (level : ℕ)
      (eval : Eval (EvalState F) F) (s : EvalState F) (there : HasElements array s) where
    -- A Not of a forSome evaluates as the forAll of the Not, and a Not of a forAll as the forSome of the
    -- Not, with errors, panics, the frames and the order of evaluation, where no element is missing.
    pub eval_for-duality :
        (eval_not (eval_for_some error_text array level eval) s
          ≡ eval_for_all error_text array level (eval_not eval) s)
        × (eval_not (eval_for_all error_text array level eval) s
            ≡ eval_for_some error_text array level (eval_not eval) s)
    unfolding eval_for_all eval_for_some eval_not on_elements not_next
    eval_for-duality =
        at (get_num_elements_at_address s.dictionary array.address array.parent s.frames) refl
      where
        at :
            (m : Outcome (Dictionary × Result ℕ))
            → get_num_elements_at_address s.dictionary array.address array.parent s.frames ≡ m
            → (eval_not (eval_for_some error_text array level eval) s
                ≡ eval_for_all error_text array level (eval_not eval) s)
              × (eval_not (eval_for_all error_text array level eval) s
                  ≡ eval_for_some error_text array level (eval_not eval) s)
        at panic h = rw h (refl, refl)
        at out_of_fuel h = rw h (refl, refl)
        at (done (d, err e)) h = rw h (refl, refl)
        at (done (d, ok n)) h =
            let (frame, vs, is_frame, is_slice, same) = get_num_elements_at_address-ok _ _ _ _ h in
            let p =
              present frame array.address vs n 0 is_slice (there frame vs is_frame is_slice)
                (omega arith) in
            rw (h, is_frame)
              (
                some_from-not level eval frame array.address n 0 _ p,
                all_from-not level eval frame array.address n 0 _ p,
              )
