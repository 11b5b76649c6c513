-- ===== src/BlockUtil/Shards/Laws.antt =====
-- Which shards a block affects, against a description of it without sets or loops.
use native.Mathlib.Nat.{mod-lt}
use push_snode.Base.{
  ok-injective, ℕ, zero, suc, ◌+◌, ◌<◌, String, ◌≡◌, Bool, false, ◌&&◌, ◌||◌, List, [], ◌∷◌, Option,
  none, some, Error, Result, ok, throw, arith, any, ltb, leb, ◌==◌, nat_eq, string_eq,
  if◌then◌else◌, >>=-eq-ok, Bool-cases, inl, inr,
}
use push_snode.Base.JsSet.{has, add, has-add}
use push_snode.Proto.{Transaction, TransactionObj, Block}
use push_snode.Ext.{Ext}
use push_snode.BlockUtil.Shards.{
  add_found, not_null, shard_of_hash, calculate_affected_shard, add_range, add_wallets,
  calculate_affected_shards_tx, add_txs, calculate_affected_shards,
}

abbrev is_shard : ℕ → Result (Option ℕ) → Bool
is_shard s (ok (some id)) = id == s
is_shard s (ok none) = false
is_shard s (throw e) = false

not_null-eq-ok {ℓ} :
    {A : Type ℓ} (o : Option A) (e : Error) {a : A} → not_null o e ≡ ok a → o ≡ some a
not_null-eq-ok none e h = cc
not_null-eq-ok (some b) e h = cc

module _ (ext : Ext) (shard_count s : ℕ) where
  -- The wallet lives on shard `s`.
  abbrev pub wallet_touches : String → Bool
  wallet_touches wallet = is_shard s (calculate_affected_shard ext wallet shard_count)

  -- An INIT_DID touches every shard, another transaction those of its sender and recipients.
  abbrev pub tx_touches : Transaction → Bool
  tx_touches tx =
      if tx.category == "INIT_DID"
      then ltb s shard_count
      else any wallet_touches (tx.sender ∷ tx.recipients)

  abbrev pub obj_touches : TransactionObj → Bool
  obj_touches o = elim o.tx [ none ↦ false | some tx ↦ tx_touches tx ]

  abbrev pub block_touches : Block → Bool
  block_touches block = any obj_touches block.txobj

  has-add_range :
      (count first : ℕ) (shards : List ℕ)
      → has (add_range ext count first shards) s
        ≡ (has shards s || (leb first s && ltb s (first + count)))
  unfolding add_range
  has-add_range zero first shards = ground arith
  has-add_range (suc count) first shards =
      ground (arith, has-add_range count (suc first) (add shards first), has-add shards first s)

  has-add_found :
      (shards : List ℕ) (o : Option ℕ)
      → has (add_found shards o) s ≡ (has shards s || is_shard s (ok o))
  has-add_found shards none = ground arith
  has-add_found shards (some id) = has-add shards id s

  has-add_wallets :
      (wallets : List String) (shards : List ℕ) {r : List ℕ}
      → add_wallets ext shard_count wallets shards ≡ ok r
      → has r s ≡ (has shards s || any wallet_touches wallets)
  unfolding add_wallets
  has-add_wallets [] shards h = ground arith
  has-add_wallets (w ∷ ws) shards h =
      let (o, q, k) = >>=-eq-ok (calculate_affected_shard ext w shard_count) _ h in
      ground (arith, q, has-add_wallets ws (add_found shards o) k, has-add_found shards o)

  has-calculate_affected_shards_tx :
      (tx : Transaction) (shards : List ℕ) {r : List ℕ}
      → calculate_affected_shards_tx ext tx shard_count shards ≡ ok r
      → has r s ≡ (has shards s || tx_touches tx)
  unfolding calculate_affected_shards_tx
  has-calculate_affected_shards_tx tx shards {r} h = elim (Bool-cases (tx.category == "INIT_DID")) [
    | inl q ↦ ground (arith, q, has-add_range shard_count 0 shards, ok-injective (rw q at h))
    | inr q ↦ rw q (has-add_wallets (tx.sender ∷ tx.recipients) shards (rw q at h))
  ]

  has-add_txs :
      (objs : List TransactionObj) (shards : List ℕ) {r : List ℕ}
      → add_txs ext shard_count objs shards ≡ ok r
      → has r s ≡ (has shards s || any obj_touches objs)
  unfolding add_txs
  has-add_txs [] shards h = ground arith
  has-add_txs (o ∷ os) shards h =
      let (tx, q, k) = >>=-eq-ok (not_null o.tx Error.undefined_property) _ h in
      let (shards', q', k') =
        >>=-eq-ok (calculate_affected_shards_tx ext tx shard_count shards) _ k in
      ground (
        arith,
        not_null-eq-ok o.tx _ q,
        has-calculate_affected_shards_tx tx shards q',
        has-add_txs os shards' k',
      )

-- A shard is in the result exactly when some transaction of the block touches it.
pub has-calculate_affected_shards :
    (ext : Ext) (block : Block) (shard_count s : ℕ) (shards : List ℕ)
    → calculate_affected_shards ext block shard_count ≡ ok shards
    → has shards s ≡ block_touches ext shard_count s block
unfolding calculate_affected_shards has
has-calculate_affected_shards ext block shard_count s shards h =
    has-add_txs ext shard_count s block.txobj [] h

shard_of_hash-lt :
    (ext : Ext) (sha : List ℕ) (shard_count s : ℕ)
    → shard_of_hash ext sha shard_count ≡ ok (some s)
    → s < shard_count
unfolding shard_of_hash
shard_of_hash-lt ext [] shard_count s h = cc
shard_of_hash-lt ext (b ∷ bs) shard_count s h = ground (arith, mod-lt b {m = shard_count})

-- A shard of an address is one of the `shardCount` shards.
pub calculate_affected_shard-lt :
    (ext : Ext) (wallet : String) (shard_count s : ℕ)
    → calculate_affected_shard ext wallet shard_count ≡ ok (some s)
    → s < shard_count
unfolding calculate_affected_shard
calculate_affected_shard-lt ext wallet shard_count s h =
    ground (arith, λ (sha : List ℕ). shard_of_hash-lt ext sha shard_count s)
