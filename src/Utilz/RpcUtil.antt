-- ===== src/Utilz/RpcUtil.antt =====
-- utilz/rpcUtil.ts: JSON-RPC calls that are tried again when they fail. What `axios.post` does with
-- the i-th request is a function, since each attempt may be answered otherwise.
pub mod Laws
mod Tests
use push_snode.Base.{
  ℕ, zero, suc, String, Bool, true, false, List, Option, none, some, Result, ok, throw,
  bad_response, out_of_retries, nat_beq, if◌then◌else◌,
}
use push_snode.Base.Steps.{Step}
use push_snode.Utilz.StrUtil

-- `result` is `none` where `res.data.result` is falsy.
pub record Response (A : Type 0) : Type 0 where
  pub status : ℕ
  pub result : Option A

pub record Payload (P : Type 0) : Type 0 where
  pub method : String
  pub params : P

pub record RpcUtils (P : Type 0) : Type 0 where
  pub function_name : String
  pub params : P
  pub payload : Payload P

-- `??`
abbrev pub or_default {ℓ} : {B : Type ℓ} → Option B → B → B
or_default none b = b
or_default (some a) b = a

-- `res.status == 200 && res.data.result`; a request that throws is thrown on
unfoldable pub checked : {A : Type 0} → Result (Response A) → Result A
checked (throw e) = throw e
checked (ok res) = elim res.result [
  | none ↦ throw bad_response
  | some result ↦ if nat_beq res.status 200 then ok result else throw bad_response
]

module _ {P A : Type 0} where
  -- The payload keeps the method and the parameters of the call. An empty name changes nothing.
  unfoldable pub call :
      (Payload P → Result (Response A)) → String → P → RpcUtils P → RpcUtils P × Result A
  unfolding checked
  call post name ps rpc =
      let rpc' : RpcUtils P =
        if StrUtil.is_empty name
        then rpc
        else record rpc { payload = record { method = name; params = ps } } in
      (rpc', checked (post rpc'.payload))

  -- The attempts that are left, and the number of the next one.
  unfoldable pub call_loop :
      (ℕ → Payload P → Result (Response A))
      → String
      → P
      → ℕ
      → ℕ
      → RpcUtils P
      → RpcUtils P × Result A
  unfolding call
  call_loop post name ps zero i rpc = (rpc, throw out_of_retries)
  call_loop post name ps (suc left) i rpc =
      let (rpc', r) = call (post i) name ps rpc in
      elim r [ ok result ↦ (rpc', ok result) | throw e ↦ call_loop post name ps left (suc i) rpc' ]

  -- `while (retries <= allowedRetries)`: one attempt more than retries
  unfoldable pub call_with_retires :
      (ℕ → Payload P → Result (Response A))
      → ℕ
      → Option String
      → Option P
      → RpcUtils P
      → RpcUtils P × Result A
  unfolding call_loop
  call_with_retires post allowed_retries name ps rpc =
      call_loop post (or_default name rpc.function_name) (or_default ps rpc.params)
        (suc allowed_retries) 0 rpc
