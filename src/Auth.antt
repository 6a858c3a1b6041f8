-- ===== src/Auth.antt =====
-- service/auth.go: the administrator's credentials, sessions and the guard of the admin API.
pub mod World
pub mod Config
pub mod Token
pub mod Service
pub mod Saved
pub mod Loaded
pub mod RoundTrip
pub mod Reset
pub mod Guard
pub mod Toy
pub mod Tests
pub mod Methods
