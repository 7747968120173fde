-- ===== src/Engine/Scope/Resolve.antt =====
-- Which scope the name of an element stands for.
use mathlib.Core.List.{Memᴰ}
use mathlib.Core.List.Memᴰ
use rulestone.Prelude.{
  ℕ, suc, ◌≡◌, ◌≢◌, ◌⊎◌, inl, inr, refl, ap, sym, ◌∙◌, true, false, ◌==◌, Bool-cases, List, [], ◌∷◌,
  ◌++◌, arith,
}
use rulestone.Condition.Operand.{Text}
use rulestone.Condition.Operand.Numerals.{text_eq}
use rulestone.Objectmap.TextMap.{text_eq_iff}
use rulestone.Engine.Scope.{ForEachScope, find_element_scope}

-- The levels of a scope and of its ancestors: each is one more than that of its parent, and the last
-- scope is the root.
abbrev pub IsChain : List ForEachScope → Type 0
IsChain [] = ⊥
IsChain (root ∷ []) = root.nesting_level ≡ 0
IsChain (scope ∷ parent ∷ ancestors) =
    (scope.nesting_level ≡ suc parent.nesting_level) × IsChain (parent ∷ ancestors)

-- The found scope has the element or is the root, and no scope before it has the element.
pub record IsInnermost (element : Text) (parents found : List ForEachScope) : Type 0 where
  pub before : List ForEachScope
  pub scope : ForEachScope
  pub after : List ForEachScope
  pub parts : parents ≡ before ++ scope ∷ after
  pub is_found : found ≡ scope ∷ after
  pub named : (element ≡ scope.element) ⊎ (after ≡ [])
  pub others : (other : ForEachScope) → Memᴰ other before → element ≢ other.element

-- Below the root, a scope that is passed over does not have the element.
later :
    (element : Text) (s : ForEachScope) (parents found : List ForEachScope)
    → element ≢ s.element
    → IsInnermost element parents found
    → IsInnermost element (s ∷ parents) found
later element s parents found differs i = record {
  before = s ∷ i.before;
  scope = i.scope;
  after = i.after;
  parts = ap (λ ss. s ∷ ss) i.parts;
  is_found = i.is_found;
  named = i.named;
  others = λ other m. elim (Memᴰ.cases_cons m) [
    | inl e ↦ λ same. differs (same ∙ ap (λ o. o.element) e)
    | inr n ↦ i.others other n
  ];
}

here :
    (element : Text) (s : ForEachScope) (parents : List ForEachScope)
    → (element ≡ s.element) ⊎ (parents ≡ [])
    → IsInnermost element (s ∷ parents) (s ∷ parents)
here element s parents named = record {
  before = [];
  scope = s;
  after = parents;
  parts = refl;
  is_found = refl;
  named = named;
  others = λ other m. absurd (Memᴰ.not-nil m);
}

find_root :
    (element : Text) (root : ForEachScope)
    → root.nesting_level ≡ 0
    → find_element_scope element (root ∷ []) ≡ root ∷ []
unfolding find_element_scope
find_root element root h = rw h (ground arith)

find_here :
    (element : Text) (s : ForEachScope) (parents : List ForEachScope)
    → text_eq element s.element ≡ true
    → find_element_scope element (s ∷ parents) ≡ s ∷ parents
unfolding find_element_scope
find_here element s parents h = rw h refl

find_later :
    (element : Text) (s : ForEachScope) (parents : List ForEachScope) (level : ℕ)
    → text_eq element s.element ≡ false
    → s.nesting_level ≡ suc level
    → find_element_scope element (s ∷ parents) ≡ find_element_scope element parents
unfolding find_element_scope
find_later element s parents level h k =
    let deep : (s.nesting_level == 0) ≡ false = ground (arith, k) in rw (h, deep) refl

-- In a chain of scopes, findElementScope gives the innermost scope that has the element, and the root
-- where no scope has it, but never nil.
pub find_element_scope-IsInnermost :
    (element : Text) (parents : List ForEachScope)
    → IsChain parents
    → IsInnermost element parents (find_element_scope element parents)
find_element_scope-IsInnermost element [] chain = absurd chain
find_element_scope-IsInnermost element (root ∷ []) chain =
    rw (find_root element root chain) (here element root [] (inr refl))
find_element_scope-IsInnermost element (s ∷ parent ∷ ancestors) (level, chain) =
    elim (Bool-cases (text_eq element s.element)) [
      | inl h ↦
          rw (find_here element s (parent ∷ ancestors) h)
            (here element s (parent ∷ ancestors) (inl ((text_eq_iff element s.element).0 h)))
      | inr h ↦ rw (find_later element s (parent ∷ ancestors) parent.nesting_level h level) (
          later element s (parent ∷ ancestors) _
            (λ e. let clash : true ≡ false = sym ((text_eq_iff element s.element).1 e) ∙ h in cc)
            (find_element_scope-IsInnermost element (parent ∷ ancestors) chain))
    ]
