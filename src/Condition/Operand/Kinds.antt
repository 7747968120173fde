-- ===== src/Condition/Operand/Kinds.antt =====
-- What kinds the conversions and ReconcileOperands produce.
use rulestone.Prelude.{
  max, ltb→lt, ◌<◌, ◌≡◌, ◌⊎◌, inl, inr, Bool, true, false, not, arith, ltb, ap, sym, ◌∙◌,
  if◌then◌else◌,
}
use rulestone.Prelude.Fault.{Outcome, done, panic, out_of_fuel, ◌>>=◌}
use rulestone.Immutable.Hash.{Digest}
use rulestone.Condition.Operand.{
  Text, OperandKind, string, int, float, boolean, time, null, error, kind_number, Operand,
  string_operand, int_operand, float_operand, boolean_operand, time_operand, null_operand,
  error_operand, get_kind,
}
use rulestone.Condition.Operand.Numerals.{Formats, text_eq}
use rulestone.Condition.Operand.Convert.{convert_string, convert, or_error}
use rulestone.Condition.Operand.Compare.{reconcile_operands}

module _ {F : Type 0} (g : Formats F) where
  abbrev pub HasKindOrError : OperandKind → Operand F → Type 0
  HasKindOrError to w = (get_kind w ≡ to) ⊎ (get_kind w ≡ error)

  string_kind :
      (v : Text) (to : OperandKind) {w : Operand F}
      → convert_string g v to ≡ done w
      → HasKindOrError to w
  unfolding convert_string get_kind or_error
  string_kind v string h = ground arith
  string_kind v int h = ground arith
  string_kind v float h = ground arith
  string_kind v boolean h = ground arith
  string_kind v time h = ground arith
  string_kind v null h = ground arith
  string_kind v _ h = cc

  -- A conversion that returns gives an operand of the kind asked for, or an error.
  pub kind-convert :
      (x : Operand F) (to : OperandKind) {w : Operand F}
      → convert g x to ≡ done w
      → HasKindOrError to w
  unfolding convert get_kind
  kind-convert (string_operand v) to h = string_kind v to h
  kind-convert (int_operand v) string h = ground arith
  kind-convert (int_operand v) _ h = ground arith
  kind-convert (float_operand v) string h = ground arith
  kind-convert (float_operand v) _ h = ground arith
  kind-convert (boolean_operand v) string h = ground arith
  kind-convert (boolean_operand v) _ h = ground arith
  kind-convert (time_operand v) string h = ground arith
  kind-convert (time_operand v) _ h = ground arith
  kind-convert null_operand to h = ground arith
  kind-convert (error_operand err) to h = ground arith
  kind-convert _ to h = cc

  kind_number_injective : (a b : OperandKind) → kind_number a ≡ kind_number b → a ≡ b
  kind_number_injective a b h = ground arith

  -- Which branch of ReconcileOperands returned, and what.
  abbrev Picked :
      Bool
      → Bool
      → Outcome (Operand F)
      → Outcome (Operand F)
      → Operand F
      → Operand F
      → Operand F
      → Operand F
      → Type 0
  Picked b₁ b₂ c₁ c₂ x y x' y' =
      ((b₁ ≡ true) × (c₁ ≡ done x') × (y ≡ y'))
      ⊎ ((b₁ ≡ false) × (b₂ ≡ true) × (c₂ ≡ done y') × (x ≡ x'))
      ⊎ ((b₁ ≡ false) × (b₂ ≡ false) × (x ≡ x') × (y ≡ y'))

  picked :
      (b₁ b₂ : Bool) (c₁ c₂ : Outcome (Operand F)) (x y : Operand F) {x' y' : Operand F}
      → (if b₁
          then ◌>>=◌ {B = Operand F × Operand F} c₁ (λ w. done (w, y))
          else if b₂
          then ◌>>=◌ {B = Operand F × Operand F} c₂ (λ w. done (x, w))
          else done (x, y))
        ≡ done (x', y')
      → Picked b₁ b₂ c₁ c₂ x y x' y'
  picked true b₂ (done w) c₂ x y h = ground arith
  picked true b₂ panic c₂ x y h = cc
  picked true b₂ out_of_fuel c₂ x y h = cc
  picked false true c₁ (done w) x y h = ground arith
  picked false true c₁ panic x y h = cc
  picked false true c₁ out_of_fuel x y h = cc
  picked false false c₁ c₂ x y h = ground arith

  -- The operand of the lower kind was converted.
  converted :
      (x y : Operand F) {x' y' : Operand F}
      → ltb (kind_number (get_kind x)) (kind_number (get_kind y)) ≡ true
      → convert g x (get_kind y) ≡ done x'
      → y ≡ y'
      → ((get_kind x' ≡ get_kind y')
          × (kind_number (get_kind y') ≡ max (kind_number (get_kind x)) (kind_number (get_kind y))))
        ⊎ ((kind_number (get_kind x) < kind_number (get_kind y))
            × (get_kind x' ≡ error)
            × (convert g x (get_kind y) ≡ done x')
            × (y' ≡ y))
  converted x y lower made e =
      let below = ltb→lt _ _ lower in
      elim (kind-convert x (get_kind y) made) [
        | inl same ↦ inl (
          same ∙ ap get_kind e,
          ap (λ o. kind_number (get_kind o)) (sym e) ∙ omega (arith, below),
        )
        | inr bad ↦ inr (below, bad, made, sym e)
      ]

  -- When ReconcileOperands returns, both operands have the greater of the two kinds; or the operand of
  -- the lower kind has become the error that its conversion to the greater kind gives, and the other
  -- operand is unchanged.
  pub reconcile-same_kind :
      (d : Digest) (x y : Operand F) {x' y' : Operand F}
      → reconcile_operands g d x y ≡ done (x', y')
      → ((get_kind x' ≡ get_kind y')
          × (kind_number (get_kind y') ≡ max (kind_number (get_kind x)) (kind_number (get_kind y))))
        ⊎ ((kind_number (get_kind x) < kind_number (get_kind y))
            × (get_kind x' ≡ error)
            × (convert g x (get_kind y) ≡ done x')
            × (y' ≡ y))
        ⊎ ((kind_number (get_kind y) < kind_number (get_kind x))
            × (get_kind y' ≡ error)
            × (convert g y (get_kind x) ≡ done y')
            × (x' ≡ x))
  unfolding reconcile_operands
  reconcile-same_kind d x y h =
      elim (picked (ltb (kind_number (get_kind x)) (kind_number (get_kind y)))
        (ltb (kind_number (get_kind y)) (kind_number (get_kind x))) (convert g x (get_kind y))
        (convert g y (get_kind x)) x y h) [
          | inl (lower, made, e) ↦ elim (converted x y lower made e) [
            | inl same ↦ inl same
            | inr bad ↦ inr (inl bad)
          ]
          | inr (inl (low, upper, made, e)) ↦ elim (converted y x upper made e) [
            | inl (same, greatest) ↦ inl (sym same, ap kind_number same ∙ greatest ∙ omega arith)
            | inr bad ↦ inr (inr bad)
          ]
          | inr (inr (low, up, e₁, e₂)) ↦
              let equal_numbers : kind_number (get_kind x) ≡ kind_number (get_kind y) =
                ground arith in
              let same = kind_number_injective (get_kind x) (get_kind y) equal_numbers in
              inl (
                sym (ap get_kind e₁) ∙ same ∙ ap get_kind e₂,
                ap (λ o. kind_number (get_kind o)) (sym e₂) ∙ omega (arith, equal_numbers),
              )
        ]

  -- From a boolean to its text and back is negation, not the identity.
  pub boolean_text_inverts :
      (b : Bool) (t : Operand F)
      → convert g (boolean_operand b) string ≡ done t
      → convert g t boolean ≡ done (boolean_operand (not b))
  unfolding convert text_eq
  boolean_text_inverts true t h = ground arith
  boolean_text_inverts false t h = ground arith
