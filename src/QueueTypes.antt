-- ===== src/QueueTypes.antt =====
-- services/messaging-dset/queueTypes.ts: the items of a queue. The object is its JSON text.
use push_snode.Base.{ℕ, String, Option}

pub record QItem : Type 0 where
  pub id : ℕ
  pub object : String
  pub object_hash : Option String
