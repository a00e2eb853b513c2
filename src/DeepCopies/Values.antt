-- ===== src/DeepCopies/Values.antt =====
-- The copies of the types that hold no pointer.
use kflared.Base.{Text}
use kflared.Api.{GatewayReference, ServiceReference, ConnectorResourceNames, DnsRecord}
use kflared.DeepCopies.{Alloc, Pointer, pure, plain, copy_pointer}

pub record SecretKeyReference : Type 0 where
  pub name : Text
  pub key : Text

abbrev pub names_into : ConnectorResourceNames → Alloc ConnectorResourceNames
names_into x = pure x

unfoldable pub names_copy : Pointer ConnectorResourceNames → Alloc (Pointer ConnectorResourceNames)
names_copy = copy_pointer plain

abbrev pub dns_record_into : DnsRecord → Alloc DnsRecord
dns_record_into x = pure x

unfoldable pub dns_record_copy : Pointer DnsRecord → Alloc (Pointer DnsRecord)
dns_record_copy = copy_pointer plain

abbrev pub gateway_into : GatewayReference → Alloc GatewayReference
gateway_into x = pure x

unfoldable pub gateway_copy : Pointer GatewayReference → Alloc (Pointer GatewayReference)
gateway_copy = copy_pointer plain

-- `LocalReference` is its name.
abbrev pub local_into : Text → Alloc Text
local_into x = pure x

unfoldable pub local_copy : Pointer Text → Alloc (Pointer Text)
local_copy = copy_pointer plain

abbrev pub origin_service_into : ServiceReference → Alloc ServiceReference
origin_service_into x = pure (record x { port = x.port })

unfoldable pub origin_service_copy : Pointer ServiceReference → Alloc (Pointer ServiceReference)
origin_service_copy = copy_pointer plain

abbrev pub private_service_into : ServiceReference → Alloc ServiceReference
private_service_into x = pure (record x { port = x.port })

unfoldable pub private_service_copy : Pointer ServiceReference → Alloc (Pointer ServiceReference)
private_service_copy = copy_pointer plain

abbrev pub secret_key_into : SecretKeyReference → Alloc SecretKeyReference
secret_key_into x = pure x

unfoldable pub secret_key_copy : Pointer SecretKeyReference → Alloc (Pointer SecretKeyReference)
secret_key_copy = copy_pointer plain
