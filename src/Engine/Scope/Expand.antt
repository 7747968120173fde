-- ===== src/Engine/Scope/Expand.antt =====
-- The paths of which expandPath makes no scope and path.
use mathlib.Core.List.{Memᴰ}
use mathlib.Core.List.Memᴰ
use rulestone.Prelude.{
  ◌≡◌, ◌≢◌, ◌↔◌, inl, inr, refl, ap, sym, ◌∙◌, subst, Bool, true, false, ◌==◌, some, List, [], ◌∷◌,
  ◌++◌, get_elem?, arith, if◌then◌else◌,
}
use rulestone.Prelude.Fault.{done_ne_panic, Outcome, done, panic, or_panic, ◌>>=◌}
use rulestone.Condition.Operand.{Text}
use rulestone.Objectmap.Strings.{split_rest}
use rulestone.Objectmap.Strings.Split.{IsFree, split_rest-IsFree, IsFree-of_split}
use rulestone.Engine.Scope.{ForEachScope, find_element_scope, expand_path}
use rulestone.Engine.Scope.Resolve.{IsChain, IsInnermost, find_element_scope-IsInnermost}

-- expandPath after the scope was found.
abbrev pub below : Text → ForEachScope → Outcome (ForEachScope × Text)
below path scope =
    if scope.nesting_level == 0
    then done (scope, path)
    else (or_panic (get_elem? (split_rest path b'.').1 0) >>= λ child. done (scope, child))

expanded :
    (path : Text) (parents : List ForEachScope) (scope : ForEachScope)
    → get_elem? (find_element_scope (split_rest path b'.').0 parents) 0 ≡ some scope
    → expand_path path parents ≡ below path scope
unfolding expand_path
expanded path parents scope h = rw h refl

no_first :
    {A : Type 0} (xs : List A) (f : A → Outcome (ForEachScope × Text))
    → ((a : A) → f a ≢ panic)
    → (or_panic (get_elem? xs 0) >>= f) ≡ panic
    → xs ≡ []
no_first [] f total h = refl
no_first (x ∷ xs) f total h = absurd (total x h)

panics-IsFree :
    (path : Text) (scope : ForEachScope)
    → below path scope ≡ panic
    → IsFree b'.' path × (scope.nesting_level ≢ 0)
panics-IsFree path scope p = at (scope.nesting_level == 0) refl p
  where
    child_of : Outcome (ForEachScope × Text)
    child_of = or_panic (get_elem? (split_rest path b'.').1 0) >>= λ child. done (scope, child)

    at :
        (b : Bool)
        → (scope.nesting_level == 0) ≡ b
        → (if b then done (scope, path) else child_of) ≡ panic
        → IsFree b'.' path × (scope.nesting_level ≢ 0)
    at true root q = absurd (done_ne_panic q)
    at false deep q = (
      IsFree-of_split path b'.'
          (no_first (split_rest path b'.').1 _ (λ child e. done_ne_panic e) q),
      λ e. ground (arith, e, deep),
    )

IsFree-panics :
    (path : Text) (scope : ForEachScope)
    → IsFree b'.' path
    → scope.nesting_level ≢ 0
    → below path scope ≡ panic
IsFree-panics path scope alone deep =
    let test : (scope.nesting_level == 0) ≡ false = ground (arith, deep) in
    rw (test, split_rest-IsFree path b'.' alone) refl

-- Only the last scope of a chain has level 0.
root_last :
    (before : List ForEachScope) (scope : ForEachScope) (after : List ForEachScope)
    → IsChain (before ++ scope ∷ after)
    → scope.nesting_level ≡ 0
    → after ≡ []
root_last [] scope [] chain h = refl
root_last [] scope (p ∷ after) chain h = absurd (ground (arith, chain.0, h))
root_last (b ∷ []) scope after chain h = root_last [] scope after chain.1 h
root_last (b ∷ c ∷ bs) scope after chain h = root_last (c ∷ bs) scope after chain.1 h

last_root :
    (before : List ForEachScope) (scope : ForEachScope)
    → IsChain (before ++ scope ∷ [])
    → scope.nesting_level ≡ 0
last_root [] scope chain = chain
last_root (b ∷ []) scope chain = chain.1
last_root (b ∷ c ∷ bs) scope chain = last_root (c ∷ bs) scope chain.1

-- Some scope below the root has the element.
abbrev pub HasElement : Text → List ForEachScope → Type 0
HasElement element parents =
    (scope : ForEachScope) × Memᴰ scope parents
    × (scope.nesting_level ≢ 0)
    × (scope.element ≡ element)

module _ (element : Text) (parents : List ForEachScope) (chain : IsChain parents) where
  innermost : IsInnermost element parents (find_element_scope element parents)
  innermost = find_element_scope-IsInnermost element parents chain

  parts-IsChain : IsChain (innermost.before ++ innermost.scope ∷ innermost.after)
  parts-IsChain = subst IsChain innermost.parts chain

  found-HasElement : innermost.scope.nesting_level ≢ 0 → HasElement element parents
  found-HasElement deep = (
    innermost.scope,
    subst (Memᴰ innermost.scope) (sym innermost.parts)
        (Memᴰ.append_right innermost.before (Memᴰ.head refl)),
    deep,
    elim innermost.named [
      | inl e ↦ sym e
      | inr last ↦ absurd (
          deep (
            last_root innermost.before innermost.scope (
              subst (λ ss. IsChain (innermost.before ++ innermost.scope ∷ ss)) last parts-IsChain)))
    ],
  )

  HasElement-found : HasElement element parents → innermost.scope.nesting_level ≢ 0
  HasElement-found (scope, i, deep, named) root =
      let last = root_last innermost.before innermost.scope innermost.after parts-IsChain root in
      elim (Memᴰ.append_cases innermost.before (subst (Memᴰ scope) innermost.parts i)) [
        | inl early ↦ innermost.others scope early (sym named)
        | inr rest ↦ elim (Memᴰ.cases_cons rest) [
          | inl e ↦ deep (ap (λ s. s.nesting_level) e ∙ root)
          | inr later ↦ Memᴰ.not-nil (subst (Memᴰ scope) last later)
        ]
      ]

-- In a chain of scopes, expandPath panics exactly for a path without a dot that is the name of the
-- element of some scope below the root.
pub expand_path-panic_iff :
    (path : Text) (parents : List ForEachScope)
    → IsChain parents
    → (expand_path path parents ≡ panic) ↔ (IsFree b'.' path × HasElement path parents)
expand_path-panic_iff path parents chain =
    let name = (split_rest path b'.').0 in
    let first = ap (λ ss. get_elem? ss 0) (innermost name parents chain).is_found in
    let scope = (innermost name parents chain).scope in
    let whole : IsFree b'.' path → name ≡ path =
      λ free. ap (λ p. p.0) (split_rest-IsFree path b'.' free) in
    (
      λ p.
          let (free, deep) =
            panics-IsFree path scope (sym (expanded path parents scope first) ∙ p) in
          (
            free,
            subst (λ n. HasElement n parents) (whole free)
                (found-HasElement name parents chain deep),
          ),
      λ (free, has).
          expanded path parents scope first
          ∙ IsFree-panics path scope free (
              HasElement-found name parents chain
                (subst (λ n. HasElement n parents) (sym (whole free)) has)),
    )
