-- ===== src/Utilz/RpcUtil/Laws.antt =====
-- What a call with retries comes to.
use push_snode.Base.{
  ℕ, zero, suc, ◌+◌, ◌≤◌, ◌<◌, String, ◌≡◌, refl, ◌≢◌, ◌⊎◌, inl, inr, subst, sym, ◌∙◌, Bool-cases,
  Result-cases, nat_beq, false, Option, Result, ok, throw, out_of_retries, arith,
}
use push_snode.Utilz.StrUtil
use push_snode.Utilz.RpcUtil.{
  Payload, RpcUtils, Response, checked, call, or_default, call_loop, call_with_retires,
}

module _ {P A : Type 0} (post : ℕ → Payload P → Result (Response A)) (name : String) (ps : P) where
  -- what the i-th attempt comes to
  abbrev pub attempt : ℕ → Result A
  attempt i = checked (post i (record { method = name; params = ps }))

  abbrev pub IsFailed : ℕ → Type 0
  IsFailed i = (a : A) → attempt i ≢ ok a

  -- From attempt `first` on, before attempt `last`.
  abbrev pub AreFailed : ℕ → ℕ → Type 0
  AreFailed first last = (j : ℕ) → first ≤ j → j < last → IsFailed j

  -- The result of the first attempt that is not failed, of `left` attempts from `first` on.
  abbrev pub IsOutcome : ℕ → ℕ → Result A → Type 0
  IsOutcome left first r =
      ((a : A) × (i : ℕ) × (first ≤ i)
        × (i < first + left)
        × (r ≡ ok a)
        × (attempt i ≡ ok a)
        × AreFailed first i)
      ⊎ ((r ≡ throw out_of_retries) × AreFailed first (first + left))

  call_named :
      (i : ℕ) (rpc : RpcUtils P)
      → StrUtil.is_empty name ≡ false
      → (call (post i) name ps rpc).1 ≡ attempt i
  unfolding call
  call_named i rpc named = rw named refl

  AreFailed-step :
      (first last : ℕ) → IsFailed first → AreFailed (suc first) last → AreFailed first last
  AreFailed-step first last here rest j lo hi = elim (Bool-cases (nat_beq first j)) [
    | inl q ↦ subst IsFailed (ground arith) here
    | inr q ↦ rest j (ground arith) hi
  ]

  IsOutcome-step :
      (left first : ℕ) (r : Result A)
      → IsFailed first
      → IsOutcome left (suc first) r
      → IsOutcome (suc left) first r
  IsOutcome-step left first r here (inl (a, i, lo, hi, q, good, bad)) =
      inl (a, i, omega arith, omega arith, q, good, AreFailed-step first i here bad)
  IsOutcome-step left first r here (inr (q, bad)) =
      inr (q, AreFailed-step first (first + suc left) here (λ j lo hi. bad j lo (omega arith)))

  call_loop-IsOutcome :
      (left first : ℕ) (rpc : RpcUtils P)
      → StrUtil.is_empty name ≡ false
      → IsOutcome left first (call_loop post name ps left first rpc).1
  unfolding call_loop
  call_loop-IsOutcome zero first rpc named = inr (refl, λ j lo hi. absurd (omega arith))
  call_loop-IsOutcome (suc left) first rpc named =
      elim (Result-cases (call (post first) name ps rpc).1) [
        | inl (a, e) ↦ inl (
          a,
          first,
          omega arith,
          omega arith,
          rw (call_loop, e) refl,
          sym (call_named first rpc named) ∙ e,
          λ j lo hi. absurd (omega arith),
        )
        | inr (x, e) ↦
            let next : RpcUtils P = (call (post first) name ps rpc).0 in
            rw (call_loop, e)
              (IsOutcome-step left first (call_loop post name ps left (suc first) next).1
                (λ a q. let k : throw x ≡ ok a = sym e ∙ call_named first rpc named ∙ q in cc)
                (call_loop-IsOutcome left (suc first) next named))
      ]

-- A call with retries whose method has a name that is not empty returns the result of the first
-- attempt that is answered with status 200 and a result, of one attempt more than the retries
-- allowed. Only where all of them fail it throws. Each attempt sends the method and the parameters
-- of the call, or of the object where these are left out.
pub call_with_retires_lem :
    {P A : Type 0} (post : ℕ → Payload P → Result (Response A)) (allowed_retries : ℕ)
    (name : Option String) (ps : Option P) (rpc : RpcUtils P)
    → StrUtil.is_empty (or_default name rpc.function_name) ≡ false
    → IsOutcome post
        (or_default name rpc.function_name)
        (or_default ps rpc.params)
        (suc allowed_retries)
        0
        (call_with_retires post allowed_retries name ps rpc).1
unfolding call_with_retires
call_with_retires_lem post allowed_retries name ps rpc named =
    call_loop-IsOutcome post (or_default name rpc.function_name) (or_default ps rpc.params)
      (suc allowed_retries) 0 rpc named
