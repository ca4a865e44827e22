-- ===== src/Startup.antt =====
-- How the two programs start: cmd/main.go and cmd/proxy/main.go, with `SetupWithManager` of
-- internal/controller/debugsession_controller.go.
pub mod Flags
pub mod Options
pub mod Calls
pub mod Manager
pub mod Proxies
