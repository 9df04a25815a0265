-- ===== src/Storage.antt =====
-- account_storage.go, account_role_storage.go and account_delete_storage.go: accounts and their role
-- bindings, in the database if the plugin has one and else in its two maps.
pub mod Roles
pub mod Lookup
pub mod Changes
pub mod Listing
pub mod Paging
pub mod Normalized
pub mod Transactions
pub mod Frame
pub mod Effects
pub mod Found
pub mod Created
