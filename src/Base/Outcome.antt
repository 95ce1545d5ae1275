-- ===== src/Base/Outcome.antt =====
-- A value or a raised exception, for the pure functions of the program.
use mathlib.Core.Path.{◌≡◌}
use mathlib.Core.Bool.{Bool, true, false}

pub data Error : Type 0 where
  value_error index_error key_error type_error timeout_error runtime_error : Error
  os_error called_process_error system_exit attribute_error zero_division statistics_error
        overflow_error :
      Error

-- What `except Exception` catches.
abbrev pub is_exception : Error → Bool
is_exception system_exit = false
is_exception _ = true

abbrev pub Failure : Type 0
Failure = (e : Error) × (is_exception e ≡ true)

pub data Result {ℓ} (A : Type ℓ) : Type ℓ where
  ok : A → Result A
  raised : Error → Result A

abbrev pub and_then {ℓ κ} : {A : Type ℓ} {B : Type κ} → Result A → (A → Result B) → Result B
and_then (ok a) f = f a
and_then (raised e) f = raised e
