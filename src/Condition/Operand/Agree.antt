-- ===== src/Condition/Operand/Agree.antt =====
-- Equality of operands against their hashes, as the hash maps that are keyed by operands need it.
use rulestone.Prelude.{ℕ, ◌≡◌, refl, ap, Bool, true, false, [], ◌∷◌, arith, ◌==◌, ==_iff}
use rulestone.Prelude.Int.{==ℤ_iff}
use rulestone.Prelude.Fault.{done}
use rulestone.Immutable.Hash.{Digest, hash_bytes, hash_uint64, uint64}
use rulestone.Condition.Operand.{
  Text, Operand, string_operand, int_operand, float_operand, boolean_operand, time_operand,
  attribute_operand, expr_operand, address_operand, computed_operand, root_operand, sel_operand,
  index_operand, null_operand, list_operand, error_operand,
}
use rulestone.Condition.Operand.Numerals.{Formats, text_eq}
use rulestone.Condition.Operand.Hash.{get_hash}
use rulestone.Condition.Operand.Compare.{same_hash, equals}

pub text_eq_sound : (a b : Text) → text_eq a b ≡ true → a ≡ b
unfolding text_eq
text_eq_sound [] [] h = refl
text_eq_sound [] (d ∷ ds) h = cc
text_eq_sound (c ∷ cs) [] h = cc
text_eq_sound (c ∷ cs) (d ∷ ds) h = ground (arith, text_eq_sound cs ds)

module _ {F : Type 0} (g : Formats F) (d : Digest) where
  done_injective : {a b : Bool} → done a ≡ done b → a ≡ b
  done_injective h = cc

  by_hash : (n k : ℕ) → done (n == k) ≡ done true → n ≡ k
  by_hash n k h = (==_iff n k).0 (done_injective h)

  -- Floats that are equal have the same integer part.
  abbrev pub FloatsAgree : Type 0
  FloatsAgree = (v w : F) → g.float_eq v w ≡ true → g.uint64_of_float v ≡ g.uint64_of_float w

  -- If equal floats have the same integer part, operands of any kind that Equals finds equal have the
  -- same hash.
  pub equal_hash :
      (x y : Operand F) → FloatsAgree → equals g d x y ≡ done true → get_hash g d x ≡ get_hash g d y
  unfolding equals get_hash same_hash
  equal_hash (string_operand v) (string_operand w) fl h =
      ap (hash_bytes d) (text_eq_sound v w (done_injective h))
  equal_hash (string_operand v) _ fl h = cc
  equal_hash (int_operand v) (int_operand w) fl h = ap uint64 ((==ℤ_iff v w).0 (done_injective h))
  equal_hash (int_operand v) _ fl h = cc
  equal_hash (float_operand v) (float_operand w) fl h = fl v w (done_injective h)
  equal_hash (float_operand v) _ fl h = cc
  equal_hash (boolean_operand true) (boolean_operand true) fl h = refl
  equal_hash (boolean_operand false) (boolean_operand false) fl h = refl
  equal_hash (boolean_operand v) _ fl h = cc
  equal_hash (time_operand v) (time_operand w) fl h =
      ap (λ n. hash_uint64 d (uint64 (g.unix_nano n)))
        ((==ℤ_iff v.instant w.instant).0 (done_injective h))
  equal_hash (time_operand v) _ fl h = cc
  equal_hash (attribute_operand v) (attribute_operand w) fl h =
      ap (hash_bytes d) (text_eq_sound v w (done_injective h))
  equal_hash (attribute_operand v) _ fl h = cc
  equal_hash (expr_operand func args hash) y fl h = by_hash _ _ h
  equal_hash (address_operand a b c hash) y fl h = by_hash _ _ h
  equal_hash (computed_operand a b c e hash) y fl h = by_hash _ _ h
  equal_hash (root_operand selector hash) y fl h = by_hash _ _ h
  equal_hash (sel_operand base selector hash) y fl h = by_hash _ _ h
  equal_hash (index_operand base index_expr hash) y fl h = by_hash _ _ h
  equal_hash (list_operand operands) y fl h = by_hash _ _ h
  equal_hash null_operand y fl h = cc
  equal_hash (error_operand err) y fl h = cc
