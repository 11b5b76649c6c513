-- ===== src/Utilz/ChainUtil/Tests.antt =====
-- Addresses of the comments and of tests/utilz/chainUtil.test.ts.
use push_snode.Utilz.ChainUtil.Laws.{IsCaip, print, parse_caip_address_iff}
use push_snode.Base.{◌↔◌, ◌≡◌, refl, true, false, some, none}
use push_snode.Utilz.StrUtil.{
  is_space, length, is_empty, is_empty_or_null, has_size, is_blank, split,
}
use push_snode.Utilz.ChainUtil.{
  CaipAddr, caip, failed, invalid_namespace, invalid_format, parse_caip_address, check_components,
  no_prefix, is_full_caip_address,
}

caip_tests :
    (parse_caip_address "eip155:5:0xAAAAAA"
      ≡ caip (record { namespace = "eip155"; chain_id = some "5"; addr = "0xAAAAAA" }))
    × (parse_caip_address "eip155:0xAAAAAA"
        ≡ caip (record { namespace = "eip155"; chain_id = none; addr = "0xAAAAAA" }))
    × (parse_caip_address "a:b:c:d" ≡ failed invalid_format)
    × (parse_caip_address "toolongname:1:0xAAAA" ≡ failed (invalid_namespace "toolongname"))
    × (is_full_caip_address "e:1:0" ≡ false)
    × (is_full_caip_address "eip155:1:0xAAAA" ≡ true)
unfolding is_full_caip_address parse_caip_address check_components no_prefix length is_empty
    is_empty_or_null has_size is_space is_blank split
caip_tests = (refl, refl, refl, refl, refl, refl)

abbrev eth : CaipAddr
eth = record { namespace = "eip155"; chain_id = some "5"; addr = "0xAAAAAA" }

parse_caip_address_iff_example :
    (parse_caip_address "eip155:5:0xAAAAAA" ≡ caip eth)
    ↔ (IsCaip eth × (print eth ≡ "eip155:5:0xAAAAAA"))
parse_caip_address_iff_example = parse_caip_address_iff "eip155:5:0xAAAAAA" eth
