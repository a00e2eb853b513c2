-- ===== src/Bindings.antt =====
-- internal/controller/cloudflaretunnelbinding_controller.go
pub mod Winners
pub mod Children
pub mod Finalize
pub mod Tunnels
pub mod Status
pub mod Endpoints
pub mod Origin
pub mod Validation
pub mod Reconcile
pub mod Watches
pub mod Keeps
pub mod Owned
pub mod Settled
