-- ===== src/Platform.antt =====
-- What the plugin holds (`AdminAccountPlugin` of main.go) and what stands outside it. Databases,
-- Redis, the runtime's request bridge, the clock, the entropy source and the parts of Go's library
-- that are not modelled are functions that act on the state `Outside`.
pub mod Keeps
pub mod Ends
use omps_admin_plugin_accoun.Prelude.{ℕ, String, Bool, Option, List}
use omps_admin_plugin_accoun.Prelude.Int.{ℤ}
use omps_admin_plugin_accoun.Prelude.Dict.{Dict}
use omps_admin_plugin_accoun.Prelude.Exec.{Exec}
use omps_admin_plugin_accoun.Account.{AccountRecord, AccountResponse, Error, Result}

-- `http.Header` and a parsed query: the first value of each name.
pub record Request : Type 0 where
  pub headers : Dict String
  pub query : Dict String

-- The outcome of `json.NewDecoder(r.Body).Decode(&req)`: what was filled in, and the error.
pub record Decoded {ℓ} (A : Type ℓ) : Type ℓ where
  pub body : A
  pub err : Option Error

pub data HttpMethod : Type 0 where
  get post : HttpMethod

-- `InternalRequest(ctx, method, target, payload, headers)`: the HTTP status and the body.
abbrev pub InternalRequest : Type 0 → Type 0
InternalRequest S = HttpMethod → String → Option String → Dict String → Exec S (Result (ℤ × String))

-- One function for each SQL statement of the source. Those of a transaction act on the open
-- transaction `Tx`; to drop it is to roll back. `Option` is `none` where a row is missing
-- (`sql.ErrNoRows`).
pub record Database (S Tx : Type 0) : Type 0 where
  pub begin_tx : Exec S (Result Tx)
  pub commit : Tx → Exec S (Option Error)
  pub tx_delete_bindings : String → Exec Tx (Option Error)
  pub tx_insert_binding : String → String → Exec Tx (Option Error)
  pub tx_delete_account : String → Exec Tx (Result ℕ)
  pub tx_insert_account : String → String → String → Exec Tx (Result AccountRecord)
  pub tx_update_status : String → String → Exec Tx (Result (Option AccountRecord))
  pub select_by_id : String → Exec S (Result (Option AccountRecord))
  pub select_by_account : String → Exec S (Result (Option AccountRecord))
  pub select_role_ids : String → Exec S (Result (List String))
  pub delete_other_bindings : String → String → Exec S (Option Error)
  pub count_accounts : Option String → Option String → Exec S (Result ℕ)
  pub select_page : Option String → Option String → ℤ → ℤ → Exec S (Result (List AccountRecord))
  pub update_password_hash : String → String → Exec S (Result (Option AccountRecord))
  pub upsert_temporary : String → String → ℤ → String → Exec S (Option Error)
  pub disable_expired_temporary : Exec S (Option Error)
  pub select_admin_session : String → Exec S (Result (Option String))
  pub exec_schema : ℕ → Exec S (Option Error)

-- The three commands of Redis; `HGet` of a missing key or field is `none` (`redis.Nil`).
pub record Redis (S : Type 0) : Type 0 where
  pub hset : String → Dict String → Exec S (Option Error)
  pub expire : String → ℤ → Exec S (Option Error)
  pub hget : String → String → Exec S (Result (Option String))

-- The role module's answers as its JSON decodes.
pub record AdminRoleApiResponse : Type 0 where
  pub status : ℤ
  pub payload : String

pub record AdminRoleDetail : Type 0 where
  pub role_id : String
  pub status : String
  pub deleted_at : String
  pub permissions : List String

pub record AdminRoleCheckPermission : Type 0 where
  pub allowed : Bool
  pub role_status : String

pub record Env : Type 1 where
  pub Outside : Type 0
  pub Tx : Type 0
  -- the plugin's fields; `Option` where the code tests for nil
  pub db : Option (Database Outside Tx)
  pub rdb : Option (Redis Outside)
  pub internal_request : Option (InternalRequest Outside)
  pub lookup_project_admin_session : Option (String → Exec Outside (Result String))
  pub push : Option (String → String → Dict String → Exec Outside (Result ℤ))
  pub emit : Option (String → String → Dict String → Exec Outside Bool)
  pub session_ttl : ℤ
  pub admin_api_key : String
  -- the clock, the entropy source and the iteration order of Go's maps
  pub now : Exec Outside ℤ
  pub read_random : ℕ → Exec Outside (Option (List ℕ))
  pub range_accounts : Dict AccountRecord → Exec Outside (List AccountRecord)
  pub range_codes : List String → Exec Outside (List String)
  -- Go's library
  pub format_time : ℤ → String
  pub format_duration : ℤ → String
  pub to_lower : String → String
  pub sha256 : String → List ℕ
  pub query_escape : String → String
  pub marshal : Dict String → Result String
  pub unmarshal_response : String → Result AdminRoleApiResponse
  pub unmarshal_detail : String → Result AdminRoleDetail
  pub unmarshal_check : String → Result AdminRoleCheckPermission
  pub getenv : String → String
  pub sort_strings : List String → List String
  pub sort_slice :
      (AccountResponse → AccountResponse → Bool) → List AccountResponse → List AccountResponse

-- The plugin's maps, which serve where there is no database.
pub record Maps : Type 0 where
  pub accounts : Dict AccountRecord
  pub roles : Dict (List String)

-- The maps beside the state outside.
pub record World (env : Env) : Type 0 where
  pub maps : Maps
  pub open maps use *
  pub outside : env.Outside

-- A call of something outside leaves the plugin's maps alone.
unfoldable pub call : {env : Env} {A : Type 0} → Exec env.Outside A → Exec (World env) A
call m w = let (a, o) = m w.outside in (a, record w { outside = o })
