-- ===== src/Lib.antt =====
-- The account plugin of the administration of an omps project: the accounts of a back office, their
-- passwords, sessions and roles, and the HTTP handlers that manage them.
--
-- The parts, and the files that model them:
-- - account_models.go: the records, in Account.antt; Go's errors are values of `Error`, and a value
--   with an error is a `Result`.
-- - main.go: the plugin's fields are `Env` and `World` of Platform.antt. What the code calls but does
--   not hold is a field of `Env` or of a record in it: the statements that it sends to the database,
--   the three commands of Redis, the runtime's request bridge to the role module, the clock, the
--   entropy source, the iteration order and the sorting of Go's library, SHA-256, and the decoding of
--   JSON. They act on a state `Outside` of which nothing is assumed. Where `db` is nil the code keeps
--   accounts and roles in two maps, which are the `maps` of a `World`.
--   What `Init` reads of the configuration and the statements of `initStorage` are in Config.antt, the
--   life of a session in Config/Ttl.antt, the route table in Routes.antt.
-- - account_tokens.go: tokens and ids, in Tokens.antt, Tokens/Short.antt and Tokens/Drawn.antt.
-- - the checks of request values, in Validation.antt and Validation/RecordId.antt; strings.TrimSpace
--   and strconv.Atoi are written out in Prelude/Text.antt.
-- - admin_role_client.go: the client of the role module, in RoleClient.antt and its children.
-- - account_storage.go, account_role_storage.go and account_delete_storage.go: Storage.antt's children
--   Roles, Lookup, Changes and Listing, each operation with its branch for a database and its branch
--   for the maps. Found, Effects and Created say what the latter do, Paging what the pages of the list
--   hold, and Normalized which role an account keeps. Transactions says what the branches for a
--   database are to do, statement by statement.
-- - account_session_storage.go and the look-ups of the current account: Session.antt, with
--   a session's way there and back in Session/RoundTrip.antt.
-- - account_temporary_admin.go: Temporary.antt, with the worker over the events that it selects,
--   and Temporary/Issued.antt.
-- - method_call.go and scheduled_trigger.go: Internal.antt and its children. A method's panic and a
--   task's are values of how it ended.
-- - selftest.go: Selftest's children. Template has the placeholders, Harness the route look-up and what
--   the code uses of Go's library, Compare the comparison of a response, Run the cases and their
--   counts, Endpoint the handler and its JSON. Render, RouteLookup, Panics, Tallies, Counts and
--   Preserved say what they do. A handler of the table takes the request and the bytes of its body.
-- - ws_example.go: Push.antt, beside the handlers of main.go that touch no account.
-- - requireAccountManageToken and cleanAndValidateRoles, the guards of the handlers: Access.antt, with
--   what they decide in Access/Verdict.antt and Access/Cleaned.antt.
-- - account_handlers.go, account_delete.go and account_reset_password.go: a module under Handlers for
--   each handler. A handler takes the request and the outcome of decoding its body, and returns the
--   response that it writes. Outcome under a handler has every way in which it ends, Success the
--   requests that it carries out. Handlers/Invariants.antt joins the
--   handlers that change accounts, ReadOnly.antt those that do not, and Reachable.antt all of them.
--
-- A method is a function from the state before to its result and the state after (Prelude/Exec.antt).
-- `Keeps` of Platform/Keeps.antt says that an action keeps a predicate on the maps, `Ends` of
-- Platform/Ends.antt how an action ends in a state; both have a rule for each way to build actions.
-- Times are integers, in nanoseconds. A request is handled at once: the locks of the code are not
-- modelled, nor is an interleaving of requests.
--
-- A list that Go marshals and that is nil where it is empty is `null` in a response (`texts_or_null`
-- of Json.antt), as are the arguments of a method that its body omits.
--
-- Fuel: strconv.FormatInt is written out with 16 hexadecimal digits (`hex_digits`) and 20 decimal ones
-- (`decimal_digits`), as many as a number of 64 bits has; `lookup_route_fuel` has two calls, since what
-- stands before the first question mark has none.
--
-- Not modelled: the SQL text of the statements, which is the database's; the ticker of the
-- temporary administrator's worker; Shutdown, which prints a line; the locks of the self-test and of
-- the scheduled trigger; the fields of a test case that the code does not read. In the route table the
-- endpoint of the self-test is a parameter, since a self-test within a self-test that the runtime
-- marked waits for the lock.
pub mod Prelude
pub mod Account
pub mod Json
pub mod Platform
pub mod Tokens
pub mod Validation
pub mod RoleClient
pub mod Storage
pub mod Session
pub mod Temporary
pub mod Access
pub mod Handlers
pub mod Config
pub mod Push
pub mod Internal
pub mod Selftest
pub mod Routes
pub mod Tests
