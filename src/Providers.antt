-- ===== src/Providers.antt =====
-- internal/controller/clustercloudflareprovider_controller.go
pub mod Validation
pub mod Finalize
pub mod Reconcile
pub mod Watches
