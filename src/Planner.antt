-- ===== src/Planner.antt =====
-- internal/planner/planner.go
pub mod Canonical
pub mod Zones
pub mod Hostnames
pub mod Ingress
pub mod Names
pub mod Precedence
