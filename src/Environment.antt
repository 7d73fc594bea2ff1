-- ===== src/Environment.antt =====
-- pkg/bootstrap/environment/variables.go: a configuration is overridden by environment variables.
pub mod Values
pub mod Tests
pub mod Bounds
pub mod Startup
pub mod Access
pub mod Settings
pub mod Overrides
pub mod Convert
pub mod Writes
pub mod Paths
