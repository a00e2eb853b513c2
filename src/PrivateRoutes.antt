-- ===== src/PrivateRoutes.antt =====
-- internal/controller/cloudflaretunnelprivateroute_controller.go
pub mod Order
pub mod Owned
pub mod Validation
pub mod Status
pub mod Routes
pub mod Tunnels
pub mod Connectors
pub mod Finalize
pub mod Reconcile
pub mod Watches
