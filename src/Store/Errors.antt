-- ===== src/Store/Errors.antt =====
-- store/interface.go: `StorageError` and the tests on it.
use sentra_lab.Base.{String, Bool, true, false, Option, none, some, ◌&&◌, str_eq}

pub record StorageError : Type 0 where
  pub op : String
  pub key : String
  -- the text of the wrapped error, or none for nil
  pub cause : Option String

unfoldable pub new_storage_error : String → String → Option String → StorageError
new_storage_error o k e = record { op = o; key = k; cause = e }

abbrev is_nil : Option String → Bool
is_nil none = true
is_nil (some t) = false

-- `none` is a nil error. Every error of this package is a `*StorageError`.
unfoldable pub is_not_found : Option StorageError → Bool
is_not_found none = false
is_not_found (some e) = str_eq e.op "Get" && is_nil e.cause

unfoldable pub is_timeout : Option StorageError → Bool
is_timeout none = false
is_timeout (some e) = str_eq e.op "Timeout"

-- The predeclared errors.
abbrev pub err_key_not_found : StorageError
err_key_not_found = record { op = "Get"; key = ""; cause = none }

abbrev pub err_operation_timeout : StorageError
err_operation_timeout = record { op = "Timeout"; key = ""; cause = none }
