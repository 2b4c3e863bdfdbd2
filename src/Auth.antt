-- ===== src/Auth.antt =====
-- auth/identity.go, auth/session.go, auth/password.go and auth/password_policy.go: the identity that a
-- request carries, server-side sessions, the text of a password hash, and the policy for passwords.
pub mod Identity
pub mod Session
pub mod PasswordHash
pub mod Password
