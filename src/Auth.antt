-- ===== src/Auth.antt =====
-- The handlers of app/api/auth.py.
pub mod Login
pub mod Logout
pub mod Recovery
pub mod Register
pub mod Session
pub mod Registration
pub mod Reset
pub mod Verification
