-- ===== src/References/Replicas.antt =====
-- The number of replicas of a connector.
use kflared.Base.{◌≡◌, arith, true}
use kflared.Base.Int.{ℤ, pos, negsuc, lebℤ}
use kflared.References.{effective_replicas, default_connector_replicas, max_connector_replicas}

-- Whatever is asked for, the number of replicas is from 1 to 10.
effective_replicas-bounds :
    (n : ℤ)
    → (lebℤ default_connector_replicas (effective_replicas n) ≡ true)
      × (lebℤ (effective_replicas n) max_connector_replicas ≡ true)
unfolding effective_replicas
effective_replicas-bounds (pos n) = ground arith
effective_replicas-bounds (negsuc n) = ground arith

-- A number from 1 to 10 is kept.
effective_replicas-kept :
    (n : ℤ)
    → lebℤ default_connector_replicas n ≡ true
    → lebℤ n max_connector_replicas ≡ true
    → effective_replicas n ≡ n
unfolding effective_replicas
effective_replicas-kept (pos n) h k = ground arith
effective_replicas-kept (negsuc n) h k = ground arith
