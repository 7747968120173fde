-- ===== src/Objectmap/TextMap.antt =====
-- Go's built-in maps with texts for keys, as association lists in the order of insertion.
use rulestone.Prelude.{
  ◌≡◌, ◌↔◌, subst, refl, false, List, [], ◌∷◌, Option, none, some, true, arith, if◌then◌else◌,
}
use rulestone.Condition.Operand.{Text}
use rulestone.Condition.Operand.Numerals.{text_eq}
use rulestone.Condition.Operand.Agree.{text_eq_sound}

pub text_eq_refl : (a : Text) → text_eq a a ≡ true
unfolding text_eq
text_eq_refl [] = refl
text_eq_refl (c ∷ cs) = ground (arith, text_eq_refl cs)

pub text_eq_iff : (a b : Text) → (text_eq a b ≡ true) ↔ (a ≡ b)
text_eq_iff a b = (text_eq_sound a b, λ e. subst (λ t. text_eq a t ≡ true) e (text_eq_refl a))

module _ {ℓ} {V : Type ℓ} where
  -- v, ok := m[k]
  unfoldable pub lookup : Text → List (Text × V) → Option V
  lookup k [] = none
  lookup k ((j, v) ∷ m) = if text_eq j k then some v else lookup k m

  -- m[k] = v
  unfoldable pub put : Text → V → List (Text × V) → List (Text × V)
  put k v [] = (k, v) ∷ []
  put k v ((j, w) ∷ m) = if text_eq j k then (k, v) ∷ m else (j, w) ∷ put k v m

  -- delete(m, k)
  unfoldable pub delete : Text → List (Text × V) → List (Text × V)
  delete k [] = []
  delete k ((j, w) ∷ m) = if text_eq j k then delete k m else (j, w) ∷ delete k m

  pub lookup-put :
      (k j : Text) (v : V) (m : List (Text × V))
      → lookup j (put k v m) ≡ (if text_eq k j then some v else lookup j m)
  unfolding lookup put
  lookup-put k j v [] = refl
  lookup-put k j v ((i, w) ∷ m) =
      ground (arith, text_eq_iff k j, text_eq_iff i k, text_eq_iff i j, lookup-put k j v m)

  pub lookup-put_self : (k : Text) (v : V) (m : List (Text × V)) → lookup k (put k v m) ≡ some v
  lookup-put_self k v m = rw (lookup-put k k v m) (rw (text_eq_refl k))

  pub lookup-put_ne :
      (k j : Text) (v : V) (m : List (Text × V))
      → text_eq k j ≡ false
      → lookup j (put k v m) ≡ lookup j m
  lookup-put_ne k j v m h = rw (lookup-put k j v m) (rw h)

  pub lookup-delete :
      (k j : Text) (m : List (Text × V))
      → lookup j (delete k m) ≡ (if text_eq k j then none else lookup j m)
  unfolding lookup delete
  lookup-delete k j [] = ground arith
  lookup-delete k j ((i, w) ∷ m) =
      ground (arith, text_eq_iff k j, text_eq_iff i k, text_eq_iff i j, lookup-delete k j m)
