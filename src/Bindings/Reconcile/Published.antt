-- ===== src/Bindings/Reconcile/Published.antt =====
-- Runs of the binding reconciler that end as published, which is with a requeue after two minutes.
use kflared.Api.{CloudflareTunnelBinding}
use kflared.Platform.{Platform}
use kflared.Settings.{Settings}

abbrev Binding : Type 0
Binding = CloudflareTunnelBinding
