-- ===== src/QueueClient.antt =====
-- services/messaging-dset/queueClient.ts: the node reads the queues of the validators.
pub mod Laws
mod Tests
use push_snode.Base.{
  ℕ, zero, suc, ◌+◌, String, Bool, true, false, List, [], ◌∷◌, Option, none, some, Result, ok,
  throw, if◌then◌else◌, leb,
}
use push_snode.QueueTypes.{QItem}
use push_snode.QueueServer.{Reply}

-- A row of `dset_client`.
pub record DsetClient : Type 0 where
  pub id : ℕ
  pub queue_name : String
  pub target_node_id : String
  pub target_node_url : String
  pub target_offset : ℕ
  pub state : ℕ

-- The counters of `EndpointStats`.
pub record EndpointStats : Type 0 where
  pub queries : ℕ
  pub downloaded_items : ℕ
  pub new_items : ℕ
  pub last_offset : ℕ

-- The state of a poll of one endpoint: the row in the database, the offset that is read from next,
-- the counters, and the state `S` of the consumer.
pub record Poll (S : Type 0) : Type 0 where
  pub endpoint : DsetClient
  pub last_offset : ℕ
  pub stats : EndpointStats
  pub consumer : S

-- The number of new items after an answer; an error is logged.
abbrev count_new : ℕ → Result Bool → ℕ
count_new n (ok true) = suc n
count_new n (ok false) = n
count_new n (throw e) = n

module _ {S : Type 0} (accept : QItem → S → S × Result Bool) where
  -- the body of the loop over the items
  accept_item : QItem → Poll S → Poll S
  accept_item item p =
      let (s, r) = accept item p.consumer in
      let stats : EndpointStats = record p.stats {
        downloaded_items = suc p.stats.downloaded_items;
        new_items = count_new p.stats.new_items r;
      } in
      record p { stats = stats; consumer = s }

  pub accept_items : List QItem → Poll S → Poll S
  unfolding accept_item
  accept_items [] p = p
  accept_items (item ∷ items) p = accept_items items (accept_item item p)

  -- An offset that is not above the current one is not trusted.
  pub advance : ℕ → Poll S → Poll S
  advance reply_offset p = if leb reply_offset p.last_offset then p else record p {
    last_offset = reply_offset;
    stats = record p.stats { last_offset = reply_offset };
    endpoint = record p.endpoint { target_offset = reply_offset };
  }

  abbrev pub count_query : Poll S → Poll S
  count_query p = record p { stats = record p.stats { queries = suc p.stats.queries } }

  -- The statements after a reply, and whether the loop goes on: without items it is left.
  pub take_items : ℕ → List QItem → Poll S → Poll S × Bool
  unfolding accept_items advance
  take_items reply_offset [] p = (p, false)
  take_items reply_offset (item ∷ items) p =
      (advance reply_offset (accept_items (item ∷ items) p), true)

  take_reply : Option Reply → Poll S → Poll S × Bool
  unfolding take_items
  take_reply none p = (p, false)
  take_reply (some reply) p = take_items reply.last_offset reply.items p

  -- `for (i = 0; i < maxRequests; i++)`; a reply is what the node at the url answers to the i-th
  -- request from an offset, or null.
  pub poll_requests : (ℕ → ℕ → Option Reply) → ℕ → ℕ → Poll S → Poll S
  unfolding take_reply
  poll_requests read_items zero i p = p
  poll_requests read_items (suc requests) i p =
      let (p', more) = take_reply (read_items i p.last_offset) (count_query p) in
      if more then poll_requests read_items requests (suc i) p' else p'

  abbrev pub start : DsetClient → S → Poll S
  start endpoint s = record {
    endpoint = endpoint;
    last_offset = endpoint.target_offset;
    stats = record {
      queries = 0;
      downloaded_items = 0;
      new_items = 0;
      last_offset = endpoint.target_offset;
    };
    consumer = s;
  }

  -- the body of the loop over the endpoints
  unfoldable pub poll_endpoint : (ℕ → ℕ → Option Reply) → ℕ → DsetClient → S → Poll S
  unfolding poll_requests
  poll_endpoint read_items max_requests endpoint s =
      poll_requests read_items max_requests 0 (start endpoint s)
