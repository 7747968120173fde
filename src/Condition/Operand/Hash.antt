-- ===== src/Condition/Operand/Hash.antt =====
-- condition/condition.go: the methods GetHash, and the constructors that compute a hash once.
use rulestone.Prelude.{ℕ, true, false, List, [], ◌∷◌, map}
use rulestone.Prelude.Int.{ℤ}
use rulestone.Immutable.Hash.{Digest, hash_bytes, hash_uint64, hash_uint64s, uint64}
use rulestone.Condition.Operand.{
  Text, kind_number, expression, address, sel, index, list, Operand, Operands, nil, cons,
  string_operand, int_operand, float_operand, boolean_operand, time_operand, attribute_operand,
  expr_operand, address_operand, computed_operand, root_operand, sel_operand, index_operand,
  null_operand, list_operand, error_operand,
}
use rulestone.Condition.Operand.Numerals.{Formats}

module _ {F : Type 0} (g : Formats F) (d : Digest) where
  unfoldable mutual
    pub get_hash : Operand F → ℕ
    get_hash (string_operand v) = hash_bytes d v
    get_hash (int_operand v) = uint64 v
    get_hash (float_operand v) = g.uint64_of_float v
    get_hash (boolean_operand true) = 1
    get_hash (boolean_operand false) = 0
    get_hash (time_operand v) = hash_uint64 d (uint64 (g.unix_nano v.instant))
    get_hash (attribute_operand path) = hash_bytes d path
    get_hash (expr_operand func args hash) = hash
    get_hash (address_operand address' full parameter hash) = hash
    get_hash (computed_operand address' full parameter expr hash) = hash
    get_hash (root_operand selector hash) = hash
    get_hash (sel_operand base selector hash) = hash
    get_hash (index_operand base index_expr hash) = hash
    get_hash null_operand = 0
    get_hash (list_operand operands) =
        hash_uint64s d (kind_number list ∷ hash_uint64s d (get_hashes operands) ∷ [])
    get_hash (error_operand err) = hash_bytes d (g.error_text err)

    pub get_hashes : Operands F → List ℕ
    get_hashes nil = []
    get_hashes (cons o os) = get_hash o ∷ get_hashes os

  -- HashIntArray
  hash_int_array : List ℤ → ℕ
  hash_int_array v = hash_uint64s d (map uint64 v)

  -- `func` stands for the closure, by its code pointer.
  unfoldable pub new_expr_operand : ℕ → Operands F → Operand F
  new_expr_operand func args =
      expr_operand func args
        (hash_uint64s d (kind_number expression ∷ func ∷ hash_uint64s d (get_hashes args) ∷ []))

  -- NewAddressOperand without an ExprOperand (a nil pointer, 0), and with one at `pointer`.
  unfoldable pub new_address_operand : List ℤ → List ℤ → ℕ → Operand F
  unfolding hash_int_array
  new_address_operand address' full parameter = address_operand address' full parameter (
      hash_uint64s d
        (kind_number address ∷ hash_int_array address' ∷ hash_int_array full ∷ parameter ∷ 0 ∷ []))

  unfoldable pub new_computed_operand : List ℤ → List ℤ → ℕ → ℕ → Operand F → Operand F
  unfolding hash_int_array
  new_computed_operand address' full parameter pointer expr =
      computed_operand address' full parameter expr (
        hash_uint64s d (
          kind_number address
          ∷ hash_int_array address'
          ∷ hash_int_array full
          ∷ parameter
          ∷ pointer
          ∷ []))

  -- NewSelOperand with a nil base, and with a base.
  unfoldable pub new_root_operand : Text → Operand F
  new_root_operand selector =
      root_operand selector (hash_uint64s d (kind_number sel ∷ 0 ∷ hash_bytes d selector ∷ []))

  unfoldable pub new_sel_operand : Operand F → Text → Operand F
  new_sel_operand base selector =
      sel_operand base selector
        (hash_uint64s d (kind_number sel ∷ get_hash base ∷ hash_bytes d selector ∷ []))

  unfoldable pub new_index_operand : Operand F → Operand F → Operand F
  new_index_operand base index_expr =
      index_operand base index_expr
        (hash_uint64s d (kind_number index ∷ get_hash base ∷ get_hash index_expr ∷ []))
