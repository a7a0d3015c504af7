-- ===== src/Harvest/Messages.antt =====
-- core/src/harvest_core/messages.py: the three queue messages. How pydantic writes and reads them is
-- a parameter of the world (Harvest/World).
use dialogue_microservices.Prelude.{ℕ, List, Text}

pub record SweepTask : Type 0 where
  pub corpus : Text
  pub sweep_target_id : ℕ
  pub jurisdiction_id : ℕ
  pub topic : Text
  pub query_text : Text
  pub dispatch_id : Text
  pub query_seq : ℕ
  pub query_count : ℕ
  pub dispatched_at : ℕ

pub record CodeTask : Type 0 where
  pub corpus : Text
  pub sweep_target_id : ℕ
  pub jurisdiction_id : ℕ
  pub portal_urls : List Text
  pub dispatch_id : Text
  pub dispatched_at : ℕ

pub record FetchTask : Type 0 where
  pub corpus : Text
  pub artifact_id : ℕ
  pub dispatch_id : Text
  pub dispatched_at : ℕ

-- The union `Task`, told apart by its `kind`.
pub data Task : Type 0 where
  sweep : SweepTask → Task
  code : CodeTask → Task
  fetch : FetchTask → Task
