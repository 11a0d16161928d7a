-- ===== src/Lib.antt =====
-- go-basicauth: session-based authentication for Gin, with a second factor.
--
-- The program. An application hands `Options` (a storage, the settings, a base URL) to a handler,
-- which mounts the endpoints of authentication behind the middleware RequireAuth. The handlers read
-- and write users through the interface Storage, whose operations are atomic, and keep what they
-- know of a client in a signed and encrypted session cookie. Passwords are argon2id hashes in text
-- form; a hash of another form may be verified by a function of the application and is then replaced.
-- A user with a second factor first gets a pending session, and is logged in by a code of the moment
-- or by a backup code.
--
-- The files, from the bottom up:
-- - Prelude: the names of the libraries that are used, tests on numbers, and lists.
-- - Text (Split, Laws), Decimal, Base64: the parts of Go's strings, strconv, fmt and encoding/base64
--   that the program calls.
-- - Types and Settings: types.go. The constructors of `Err` are its error values; `Result` is a pair
--   `(value, error)`.
-- - Password: HashPassword, VerifyPassword and decodeParams of util.go. Bounds is about the limits on
--   stored hashes; Encoding and RoundTrip are about hashing followed by verifying.
-- - Storage: the interface of storage_interface.go, a record of functions on a state. Contract is what
--   its comments promise, over a view of the state as a map from ids to users; Calls are sequences of
--   operations, and Budget what such a sequence can be granted.
-- - MemoryStorage: storage_memory.go. Its three maps share pointers, so the state has a heap. Index,
--   Holders, View, Invariant, Codes and Implements lead to the contract, Exact is about what the
--   operations write beyond it, and Shared joins it with Budget.
-- - Rules: findLongestMatchingRule and ruleMatches of handler.go.
-- - Request: a request as its handler sees it, the context of gin and the session of gorilla, and the
--   actions that handlers are made of. A `return` behind c.JSON ends an action (`done`).
-- - Handler: the session functions, setUserInContext and getUserByIdentifier of handler.go, with
--   helpers.go's ToUserResponse and context.go. Its children are Login (handleLogin,
--   verifyLoginPassword, upgradePasswordHash), Access (RegisterRoutes, RequireAuth, handleMe,
--   handleLogout), Register (handleRegister), Verify (handleTFAVerify and endPendingTFA of
--   handler_tfa.go), Enrol (handleTFASetup, handleTFAEnable and handleTFADisable there) and New
--   (NewHandler).
-- - Validation: validation.go. Regex is what it uses of regular expressions, Accepted describes what
--   is accepted without them.
-- - Keys: the generators of helpers.go. Bcrypt: legacy_bcrypt.go.
-- - Service: the handlers behind the routes of RegisterRoutes. Evidence is what a request proves,
--   Saved and Origin are about the sessions that the handlers save, Trace are the runs, Provenance and
--   Earned are about where the sessions of a run come from. Writes, Guesses and Redeemed are the calls
--   that the handlers make on the storage, Runs puts them together for a run, Budget counts the guesses
--   of a run and SingleUse the uses of a backup code.
-- - Tfa: tfa.go. Matching is about findBackupCodeMatch, Issued about generateBackupCodes.
-- - The modules called Samples and Tests: concrete values, and runs on them.
--
-- How the code is read:
-- - A string is the list of its bytes. What `strings` does beyond ASCII is a parameter, `Unicode`.
-- - A time is the number of nanoseconds since 1970, a UUID the number of its 16 bytes. An `int` that
--   the code only compares with 0 is a number from 0 on, where 0 stands for the negative ones too.
-- - The clock is read once for a request, where the code reads it at several places; what the source
--   of randomness gives is an argument (`Moment`).
-- - Argon2, google/uuid, pquerna/otp, gorilla/sessions and the way gin joins the path of a group with
--   that of a route are parameters (`Argon2`, `Libraries`), of which the theorems assume nothing
--   unless they name it: `IsArgon2` is that IDKey returns as many bytes as asked for, each below 256,
--   and that its version is 19.
-- - ShouldBindJSON is its outcome, a request or an error (`Bound`).
-- - In a run, clients may come back with any session that was ever saved, as often as they like: a
--   signed cookie can be replayed, but not made up, and its MaxAge does not bind them. The codec
--   carries the values of a session, and not its options.
-- - Of bcrypt the model knows the three kinds of answer (`Compared`).
-- - Within one request the storage changes only by the calls of its handler. What several requests
--   do to one storage is a sequence of calls in any order.
-- - Loops run over lists and are structural recursion; nothing needs fuel.
-- - Regular expressions are a data type with a matcher by derivatives.
--
-- Not modelled: the routing and the JSON of gin, the codec of the cookies, and the examples.
pub mod Prelude
pub mod Text
pub mod Decimal
pub mod Base64
pub mod Types
pub mod Storage
pub mod MemoryStorage
pub mod Password
pub mod Rules
pub mod Samples
pub mod Settings
pub mod Request
pub mod Handler
pub mod Tfa
pub mod Service
pub mod Keys
pub mod Bcrypt
pub mod Validation
