-- ===== src/Users.antt =====
-- Users and sign-in (src/modules/user and src/modules/auth).
mod Tests
pub mod Account
pub mod Contacts
pub mod Documents
pub mod Profiles
pub mod Roles
pub mod SignIn
