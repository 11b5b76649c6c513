-- ===== src/QueueClient/Tests.antt =====
-- A poll of a log of three rows by pages of two.
use push_snode.Base.{
  String, ◌≡◌, ◌≤◌, refl, Bool, true, List, [], ◌∷◌, ◌++◌, none, Result, ok, arith,
}
use push_snode.QueueTypes.{QItem}
use push_snode.QueueServer.{QueueServer, rows_after, to_items, read_with_last_offset}
use push_snode.QueueServer.Laws.{IsLog}
use push_snode.QueueClient.{DsetClient, Poll, poll_endpoint}
use push_snode.QueueClient.Laws.{offer_all, honest, poll_endpoint-le, poll_endpoint_complete}

abbrev log : QueueServer
log = record {
  reply_page_size = 2;
  next_id = 8;
  rows =
      record { id = 1; object = "a"; object_hash = "ha" }
      ∷ record { id = 5; object = "b"; object_hash = "hb" }
      ∷ record { id = 7; object = "c"; object_hash = "hc" }
      ∷ [];
}

log-IsLog : IsLog log
log-IsLog = record {
  ascending = (omega arith, (omega arith, (omega arith, tt)));
  fresh = (omega arith, (omega arith, (omega arith, tt)));
  positive = omega arith;
}

-- The consumer keeps what it is given.
abbrev keep : QItem → List String → List String × Result Bool
keep item seen = (seen ++ item.object ∷ [], ok true)

abbrev validator : DsetClient
validator = record {
  id = 1;
  queue_name = "mblock";
  target_node_id = "0xV";
  target_node_url = "https://v";
  target_offset = 0;
  state = 1;
}

seen : (poll_endpoint keep (honest keep log) 4 validator []).consumer ≡ "a" ∷ "b" ∷ "c" ∷ []
unfolding poll_endpoint read_with_last_offset
seen = refl

poll_endpoint_complete_example :
    let p : Poll (List String) = poll_endpoint keep (honest keep log) 4 validator [] in
    (p.consumer ≡ offer_all keep (to_items (rows_after 0 log.rows)) [])
    × (rows_after p.endpoint.target_offset log.rows ≡ [])
poll_endpoint_complete_example =
    poll_endpoint_complete keep log 4 validator [] log-IsLog (omega arith) (omega arith)

poll_endpoint-le_example :
    0 ≤ (poll_endpoint keep (λ i offset. none) 4 validator []).endpoint.target_offset
poll_endpoint-le_example = poll_endpoint-le keep (λ i offset. none) 4 validator []
