-- ===== src/Utilz/ChainUtil.antt =====
-- utilz/chainUtil.ts: CAIP-10 addresses. The pair `[caip, err]` of `parseCaipAddress` is a sum,
-- since exactly one of the two is null.
pub mod Laws
mod Tests
use push_snode.Base.{
  ℕ, String, Bool, true, false, ◌&&◌, ◌||◌, not, List, [], ◌∷◌, Option, none, some, ◌==◌, string_eq,
  if◌then◌else◌,
}
use push_snode.Utilz.StrUtil

abbrev pub addr_max : ℕ
addr_max = 65

abbrev pub namespace_max : ℕ
namespace_max = 8

abbrev pub chainid_max : ℕ
chainid_max = 32

pub record CaipAddr : Type 0 where
  pub namespace : String
  pub chain_id : Option String
  pub addr : String

pub data CaipError : Type 0 where
  address_is_empty invalid_format : CaipError
  invalid_namespace invalid_chain_id invalid_address : String → CaipError

pub data Parsed : Type 0 where
  caip : CaipAddr → Parsed
  failed : CaipError → Parsed

-- An address without its prefix `0x`.
unfoldable pub no_prefix : String → String
unfolding StrUtil.starts_with StrUtil.substring
no_prefix addr = if StrUtil.starts_with addr "0x" then StrUtil.substring 2 addr else addr

-- The check of the address, the last one.
check_address : String → Option String → String → Parsed
check_address namespace chain_id addr =
    if not (StrUtil.has_size (no_prefix addr) 4 addr_max)
    then failed (invalid_address addr)
    else caip (record { namespace = namespace; chain_id = chain_id; addr = addr })

-- The checks after the split. Without a chain id its check is skipped.
unfoldable pub check_components : String → Option String → String → Parsed
unfolding check_address
check_components namespace chain_id addr =
    if not (StrUtil.has_size namespace 1 namespace_max)
    then failed (invalid_namespace namespace)
    else elim chain_id [
      | none ↦ check_address namespace none addr
      | some id ↦
          if not (StrUtil.has_size id 1 chainid_max)
          then failed (invalid_chain_id id)
          else check_address namespace (some id) addr
    ]

unfoldable pub parse_caip_address : String → Parsed
parse_caip_address address_in_caip =
    if StrUtil.is_empty address_in_caip || StrUtil.is_blank address_in_caip
    then failed address_is_empty
    else elim (StrUtil.split b':' address_in_caip) [
      | namespace ∷ chain_id ∷ addr ∷ [] ↦ check_components namespace (some chain_id) addr
      | namespace ∷ addr ∷ [] ↦ check_components namespace none addr
      | _ ↦ failed invalid_format
    ]

unfoldable pub is_full_caip_address : String → Bool
is_full_caip_address full_caip_address = elim (parse_caip_address full_caip_address) [
  | failed err ↦ false
  | caip c ↦
      not (StrUtil.is_empty_or_null c.chain_id)
      && not (StrUtil.is_empty c.namespace)
      && not (StrUtil.is_empty c.addr)
]

-- `isPushDid`
unfoldable pub is_push_did : String → Bool
is_push_did did = elim (parse_caip_address did) [
  | failed err ↦ false
  | caip c ↦ c.namespace == "PUSH_DID"
]
