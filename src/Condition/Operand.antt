-- ===== src/Condition/Operand.antt =====
-- condition/condition.go: the operands of an expression, as one data type with a constructor for
-- each Go type. A text is its bytes. `F` stands for float64. A closure is named by its code pointer.
pub mod Numerals
pub mod Convert
pub mod Compare
pub mod Hash
pub mod Kinds
pub mod Orders
pub mod RoundTrip
pub mod Agree
use rulestone.Prelude.{ℕ, Bool, true, false, List}
use rulestone.Prelude.Int.{ℤ}

abbrev pub Text : Type 0
Text = List ℕ

pub data OperandKind : Type 0 where
  string int float boolean time attribute expression address sel index null list error : OperandKind

-- The constant that Go gives to a kind: the order in which kinds are reconciled.
abbrev pub kind_number : OperandKind → ℕ
kind_number string = 1
kind_number int = 2
kind_number float = 3
kind_number boolean = 4
kind_number time = 5
kind_number attribute = 6
kind_number expression = 7
kind_number address = 8
kind_number sel = 9
kind_number index = 10
kind_number null = 11
kind_number list = 12
kind_number error = 13

-- The errors that conversions make; `message` is an error from elsewhere, by its text.
pub data OperandError : Type 0 where
  bad_date : Text → OperandError
  bad_int : Text → OperandError
  bad_float : Text → OperandError
  null_conversion : OperandKind → OperandError
  message : Text → OperandError

-- A time.Time: its instant, in nanoseconds since 1970, and a number for its location.
pub record Time : Type 0 where
  pub instant : ℤ
  pub location : ℕ

-- The last number of an operand that caches its hash is that hash. A SelOperand without a base is
-- `root_operand`, and an AddressOperand with an ExprOperand is `computed_operand`.
mutual
  pub data Operand (F : Type 0) : Type 0 where
    string_operand : Text → Operand F
    int_operand : ℤ → Operand F
    float_operand : F → Operand F
    boolean_operand : Bool → Operand F
    time_operand : Time → Operand F
    attribute_operand : Text → Operand F
    expr_operand : ℕ → Operands F → ℕ → Operand F
    address_operand : List ℤ → List ℤ → ℕ → ℕ → Operand F
    computed_operand : List ℤ → List ℤ → ℕ → Operand F → ℕ → Operand F
    root_operand : Text → ℕ → Operand F
    sel_operand : Operand F → Text → ℕ → Operand F
    index_operand : Operand F → Operand F → ℕ → Operand F
    null_operand : Operand F
    list_operand : Operands F → Operand F
    error_operand : OperandError → Operand F

  pub data Operands (F : Type 0) : Type 0 where
    nil : Operands F
    cons : Operand F → Operands F → Operands F

module _ {F : Type 0} where
  unfoldable pub get_kind : Operand F → OperandKind
  get_kind (string_operand v) = string
  get_kind (int_operand v) = int
  get_kind (float_operand v) = float
  get_kind (boolean_operand v) = boolean
  get_kind (time_operand v) = time
  get_kind (attribute_operand path) = attribute
  get_kind (expr_operand func args hash) = expression
  get_kind (address_operand address' full parameter hash) = address
  get_kind (computed_operand address' full parameter expr hash) = address
  get_kind (root_operand selector hash) = sel
  get_kind (sel_operand base selector hash) = sel
  get_kind (index_operand base index_expr hash) = index
  get_kind null_operand = null
  get_kind (list_operand operands) = list
  get_kind (error_operand err) = error

  unfoldable pub is_const : Operand F → Bool
  is_const (string_operand v) = true
  is_const (int_operand v) = true
  is_const (float_operand v) = true
  is_const (boolean_operand v) = true
  is_const (time_operand v) = true
  is_const null_operand = true
  is_const (error_operand err) = true
  is_const (attribute_operand path) = false
  is_const (expr_operand func args hash) = false
  is_const (address_operand address' full parameter hash) = false
  is_const (computed_operand address' full parameter expr hash) = false
  is_const (root_operand selector hash) = false
  is_const (sel_operand base selector hash) = false
  is_const (index_operand base index_expr hash) = false
  is_const (list_operand operands) = false
