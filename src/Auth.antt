-- ===== src/Auth.antt =====
-- src/package/auth, with src/package/jwt and src/package/crypto.rs: accounts, sign in, tokens and
-- password resets. `Account` is domain.rs, `Outside` what the package calls and does not hold,
-- `Claims` and `Tokens` the tokens, `Tables` the statements of store.rs, `Steps` and `Service` the
-- functions and the operations of service.rs, and `Requests` a sequence of operations.
pub mod Account
pub mod Claims
pub mod Outside
pub mod Crypto
pub mod Tables
pub mod Tokens
pub mod Steps
pub mod Service
pub mod Triples
pub mod Sound
pub mod Requests
