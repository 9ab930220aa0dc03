-- ===== src/Auth.antt =====
-- The module apps/auth: refresh tokens, e-mail codes and two-factor codes. Hash functions, the
-- token codec, pyotp and Fernet are arguments.
pub mod Model
pub mod Totp
pub mod Codes
pub mod Tokens
