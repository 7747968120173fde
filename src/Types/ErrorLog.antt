-- ===== src/Types/ErrorLog.antt =====
-- types/types.go: ErrorLog and AppContext. An error is a value of a type that stands for Go's
-- `error`; formatting and printing are not modelled.
use rulestone.Prelude.{ℕ, List, [], ◌∷◌, ◌++◌, length, get_elem?}
use rulestone.Prelude.Fault.{Outcome, or_panic}

pub record AppContext (Err : Type 0) : Type 0 where
  pub errors : List Err

module _ {Err : Type 0} where
  unfoldable pub new_app_context : AppContext Err
  new_app_context = record { errors = [] }

  -- The error is logged and handed back.
  unfoldable pub log_error : AppContext Err → Err → AppContext Err × Err
  log_error ctx err = (record { errors = ctx.errors ++ err ∷ [] }, err)

  unfoldable pub num_errors : AppContext Err → ℕ
  num_errors ctx = length ctx.errors

  unfoldable pub get_error : AppContext Err → ℕ → Outcome Err
  get_error ctx index = or_panic (get_elem? ctx.errors index)
