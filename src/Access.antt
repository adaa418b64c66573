-- ===== src/Access.antt =====
-- Who may do what: services/api/app/domain/permissions.py and services/api/app/services/auth.py. The
-- database's tables are lists of rows; the token decoder, the password check and the digest are
-- parameters.
pub mod Roles
pub mod Auth
pub mod Bind
pub mod Catalog
mod Tests
