-- ===== src/Handlers.antt =====
-- The HTTP handlers of account_handlers.go, account_delete.go and account_reset_password.go, one
-- module for each group. A handler takes the request and the outcome of decoding its body, and
-- returns the response that it writes.
pub mod Payloads
pub mod Login
pub mod Me
pub mod Create
pub mod Query
pub mod Update
pub mod ResetPassword
pub mod Delete
pub mod Invariants
pub mod ReadOnly
pub mod Reachable
pub mod CheckPermission
