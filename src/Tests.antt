-- ===== src/Tests.antt =====
-- A plugin without a database, with a role module that has every role enabled and permitted, and the
-- theorems at concrete requests.
mod Fixture
mod Doubles
mod Witnesses
mod Services
mod Changes
mod Login
