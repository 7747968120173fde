-- ===== src/Tests/Laws.antt =====
-- The hash sets of the tests, for records that are compared by their category.
use mathlib.Core.List.{Memᴰ}
use mathlib.Core.List.Memᴰ
use rulestone.Prelude.{
  ◌≡◌, ◌↔◌, ◌⊎◌, inl, inr, refl, ap, sym, ◌∙◌, subst, Bool, true, false, not, ◌&&◌, ◌||◌, ◌==◌,
  ==_iff, Bool-cases, List, [], ◌∷◌, ◌++◌, length, arith, if◌then◌else◌,
}
use rulestone.Immutable.Hash.{uint64}
use rulestone.Immutable.Set.{SetElement}
use rulestone.Immutable.Set.Laws.{Laws}
use rulestone.Engine.Registry.{RecRef, record_element}
use rulestone.Tests.Tables.{hashset, has_key, remove_key, add_key}

abbrev element : SetElement RecRef
element = record { get_hash = λ v. uint64 v.cat; equals = λ v w. uint64 v.cat == uint64 w.cat }

abbrev eq : RecRef → RecRef → Bool
eq j k = element.equals j k

eq_iff : (j k : RecRef) → (eq j k ≡ true) ↔ (uint64 j.cat ≡ uint64 k.cat)
eq_iff j k = ==_iff (uint64 j.cat) (uint64 k.cat)

has_trans :
    (xs : List RecRef) (j k : RecRef)
    → has_key element xs k ≡ true
    → eq k j ≡ true
    → has_key element xs j ≡ true
has_trans [] j k h e = cc
has_trans (x ∷ xs) j k h e =
    ground (arith, h, e, eq_iff x k, eq_iff k j, eq_iff x j, has_trans xs j k)

has-append :
    (xs : List RecRef) (j k : RecRef)
    → has_key element (xs ++ j ∷ []) k ≡ (eq j k || has_key element xs k)
has-append [] j k = ground arith
has-append (x ∷ xs) j k = ground (arith, has-append xs j k)

pub has-add :
    (xs : List RecRef) (j k : RecRef)
    → has_key element (add_key element xs j) k ≡ (eq j k || has_key element xs k)
has-add xs j k = elim (Bool-cases (has_key element xs j)) [
  | inl h ↦ rw h (ground (arith, has_trans xs k j h))
  | inr h ↦ rw h (has-append xs j k)
]

pub has-remove :
    (xs : List RecRef) (j k : RecRef)
    → has_key element (remove_key element xs j) k ≡ (not (eq j k) && has_key element xs k)
has-remove [] j k = ground arith
has-remove (x ∷ xs) j k = ground (arith, eq_iff x j, eq_iff x k, eq_iff j k, has-remove xs j k)

pub has_mem :
    (xs : List RecRef) (k : RecRef)
    → has_key element xs k ≡ true
    → (j : RecRef) × Memᴰ j xs × (eq j k ≡ true)
has_mem [] k h = cc
has_mem (x ∷ xs) k h = elim (Bool-cases (eq x k)) [
  | inl e ↦ (x, Memᴰ.head refl, e)
  | inr e ↦ let (j, i, q) = has_mem xs k (ground (arith, h, e)) in (j, Memᴰ.tail i, q)
]

pub mem_has :
    (xs : List RecRef) (j k : RecRef) → Memᴰ j xs → eq j k ≡ true → has_key element xs k ≡ true
mem_has [] j k i e = absurd (Memᴰ.not-nil i)
mem_has (x ∷ xs) j k (Memᴰ.head q) e =
    let r : eq x k ≡ true = ap (λ y. eq y k) (sym q) ∙ e in rw r refl
mem_has (x ∷ xs) j k (Memᴰ.tail i) e = ground (arith, mem_has xs j k i e)

pub add_mem :
    (xs : List RecRef) (j k : RecRef) → Memᴰ k (add_key element xs j) → Memᴰ k xs ⊎ (k ≡ j)
add_mem xs j k i = elim (Bool-cases (has_key element xs j)) [
  | inl h ↦ inl (subst (λ b. Memᴰ k (if b then xs else xs ++ j ∷ [])) h i)
  | inr h ↦ elim (Memᴰ.append_cases xs (subst (λ b. Memᴰ k (if b then xs else xs ++ j ∷ [])) h i)) [
    | inl old ↦ inl old
    | inr new ↦ elim (Memᴰ.cases_cons new) [ inl e ↦ inr e | inr none ↦ absurd (Memᴰ.not-nil none) ]
  ]
]

pub no_keys : (xs : List RecRef) (k : RecRef) → length xs ≡ 0 → has_key element xs k ≡ false
no_keys [] k e = refl
no_keys (x ∷ xs) k e = absurd (omega arith)

unfoldable pub laws : Laws hashset RecRef record_element
unfolding record_element
laws = record {
  IsTable = λ t. t.0 ≡ record_element;
  of-IsTable = refl;
  put-IsTable = λ t k is. is;
  remove-IsTable = λ t k is. is;
  has-of = λ k. refl;
  has-put = λ (e, keys) j k is.
      subst (λ e. has_key e (add_key e keys j) k ≡ (eq j k || has_key e keys k)) (sym is)
        (has-add keys j k);
  has-remove = λ (e, keys) j k is.
      subst (λ e. has_key e (remove_key e keys j) k ≡ (not (eq j k) && has_key e keys k)) (sym is)
        (has-remove keys j k);
  size_zero = λ (e, keys) k is z. subst (λ e. has_key e keys k ≡ false) (sym is) (no_keys keys k z);
  has_iff = λ (e, keys) k is.
      subst (λ e. (has_key e keys k ≡ true) ↔ ((j : RecRef) × Memᴰ j keys × (eq j k ≡ true)))
        (sym is) ((λ h. has_mem keys k h), (λ (j, i, q). mem_has keys j k i q));
  each-of = λ k i. Memᴰ.not-nil i;
  each-put = λ (e, keys) j k is i. add_mem keys j k (subst (λ e. Memᴰ k (add_key e keys j)) is i);
}
