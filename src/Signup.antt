-- ===== src/Signup.antt =====
-- Signup_server: the web server on which an account is made. Checks holds the forms of the fields,
-- Table the table of the users, Handlers the routes; Accounts and Flow hold what is proved of them.
pub mod Checks
pub mod Table
pub mod Handlers
mod Accounts
mod Accepted
mod Flow
mod Examples
