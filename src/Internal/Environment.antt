-- ===== src/Internal/Environment.antt =====
-- The environment variables that set options, internal/options_from_env.go.
pub mod Variables
pub mod Applying
pub mod Precedence
pub mod Unset
