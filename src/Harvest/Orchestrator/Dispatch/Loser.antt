-- ===== src/Harvest/Orchestrator/Dispatch/Loser.antt =====
-- dispatch.py, `_dispatch_serper`: a search dispatch that loses the compare-and-set.
use dialogue_microservices.Harvest.World.{World}
