-- ===== src/Utilz/RpcUtil/Tests.antt =====
-- Two attempts that fail, and a third that is answered.
use push_snode.Base.{
  ℕ, zero, suc, ◌≡◌, refl, none, some, Result, ok, throw, bad_address, out_of_retries, ◌+◌,
}
use push_snode.Utilz.StrUtil
use push_snode.Utilz.RpcUtil.{
  Payload, RpcUtils, Response, checked, call, call_loop, call_with_retires,
}
use push_snode.Utilz.RpcUtil.Laws.{IsOutcome, call_with_retires_lem}

abbrev post : ℕ → Payload ℕ → Result (Response ℕ)
post zero p = throw bad_address
post (suc zero) p = ok (record { status = 500; result = some 1 })
post (suc (suc i)) p = ok (record { status = 200; result = some (p.params + 1) })

abbrev rpc : RpcUtils ℕ
rpc = record {
  function_name = "push_putBlockHash";
  params = 5;
  payload = record { method = "m"; params = 6 };
}

third : (call_with_retires post 3 (some "push_getBlockHashFromView") (some 7) rpc).1 ≡ ok 8
unfolding call_with_retires call_loop call checked StrUtil.is_empty
third = refl

too_few : (call_with_retires post 1 none none rpc).1 ≡ throw out_of_retries
unfolding call_with_retires call_loop call checked StrUtil.is_empty
too_few = refl

call_with_retires_lem_example :
    IsOutcome post "push_getBlockHashFromView" 7 4 0
      (call_with_retires post 3 (some "push_getBlockHashFromView") (some 7) rpc).1
unfolding StrUtil.is_empty
call_with_retires_lem_example =
    call_with_retires_lem post 3 (some "push_getBlockHashFromView") (some 7) rpc refl
