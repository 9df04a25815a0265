-- ===== src/Account.antt =====
-- account_models.go: the account record, what responses show of it, and Go's error values.
-- A time is the number of nanoseconds since the epoch; `display_name` is set by no code.
use omps_admin_plugin_accoun.Prelude.{◌*◌, ◌-◌, String, Bool, false, Option, List}
use omps_admin_plugin_accoun.Prelude.Int.{ℤ, negsuc}

pub record AccountRecord : Type 0 where
  pub id : String
  pub username : String
  pub password_hash : String
  pub display_name : String
  pub status : String
  pub is_super_admin : Bool
  pub created_at : ℤ
  pub updated_at : ℤ

-- `time.Time{}` is the first of January of the year 1.
abbrev pub zero_time : ℤ
zero_time = negsuc (62135596800 * 1000000000 - 1)

-- `accountRecord{}`
abbrev pub zero_account : AccountRecord
zero_account = record {
  id = "";
  username = "";
  password_hash = "";
  display_name = "";
  status = "";
  is_super_admin = false;
  created_at = zero_time;
  updated_at = zero_time;
}

pub record AccountRoleResponse : Type 0 where
  pub role_id : String
  pub role_status : String

pub record AccountResponse : Type 0 where
  pub account_id : String
  pub account : String
  pub status : String
  pub role_ids : List String
  pub is_super_admin : Bool
  pub created_at : String
  pub updated_at : String

-- `errNoValidAccountRole` is told apart by `errors.Is`; any other error only by its text.
pub data Error : Type 0 where
  no_valid_account_role : Error
  failure : String → Error

-- `err.Error()`
abbrev pub message : Error → String
message no_valid_account_role = "account has no enabled role"
message (failure text) = text

-- `errors.Is(err, errNoValidAccountRole)`
abbrev pub is_no_valid_account_role : Error → Bool
is_no_valid_account_role no_valid_account_role = Bool.true
is_no_valid_account_role (failure text) = false

-- A value with an error: `(a, nil)` or `(zero, err)`.
pub data Result {ℓ} (A : Type ℓ) : Type ℓ where
  ok : A → Result A
  fail : Error → Result A

-- `a, err := …; if err != nil { … }`
unfoldable pub on_error {ℓ κ} : {A : Type ℓ} {X : Type κ} → Result A → (Error → X) → (A → X) → X
on_error (ok a) f k = k a
on_error (fail e) f k = f e

-- What `getAccountByID` and `getAccountByAccount` return, all four values.
pub record Found : Type 0 where
  pub acc : AccountRecord
  pub roles : List String
  pub exists : Bool
  pub err : Option Error

pub data SessionAccountState : Type 0 where
  missing account_missing account_invalid_role account_ok : SessionAccountState

-- The three values that the look-ups of the current account return.
pub record Current : Type 0 where
  pub acc : AccountRecord
  pub roles : List String
  pub state : SessionAccountState
