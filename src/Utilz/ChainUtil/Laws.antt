-- ===== src/Utilz/ChainUtil/Laws.antt =====
-- What is accepted as a CAIP-10 address, and what is not.
use Prim.Native.Char.{Char}
use Prim.Native.String.{[] as nil, ◌∷◌ as cons}
use push_snode.Base.{
  ℕ, String, ◌≡◌, ◌↔◌, ◌≤◌, refl, true, false, ◌||◌, List, [], ◌∷◌, Option, none, some, arith,
  Bool-cases, inl, inr, ap, subst, ◌∙◌, sym, All,
}
use push_snode.Utilz.StrUtil
use push_snode.Utilz.StrUtil.Laws.{
  is_blank-IsFree, IsFree, split_of_IsFree, split-append, has_size_iff, join, join-split,
  split-IsFree,
}
use push_snode.Utilz.ChainUtil.{
  CaipAddr, caip, parse_caip_address, check_components, check_address, no_prefix,
}

abbrev colon : Char
colon = ":"

-- The parts of an address, as they stand in it.
abbrev pub parts : CaipAddr → List String
parts c = elim c.chain_id [
  | none ↦ c.namespace ∷ c.addr ∷ []
  | some id ↦ c.namespace ∷ id ∷ c.addr ∷ []
]

-- An address is written with a colon between its parts.
unfoldable pub print : CaipAddr → String
unfolding join
print c = join colon (parts c)

abbrev InSize : String → ℕ → ℕ → Type 0
InSize s lo hi = (lo ≤ StrUtil.length s) × (StrUtil.length s ≤ hi)

abbrev pub HasChainId : Option String → Type 0
HasChainId none = Unit
HasChainId (some id) = InSize id 1 32 × IsFree b':' id

-- The parts are free of colons and have the sizes that the code asks for.
pub record IsCaip (c : CaipAddr) : Type 0 where
  pub namespace_size : InSize c.namespace 1 8
  pub namespace_free : IsFree b':' c.namespace
  pub chain : HasChainId c.chain_id
  pub addr_size : InSize (no_prefix c.addr) 4 65
  pub addr_free : IsFree b':' c.addr

check_address_iff :
    (n : String) (i : Option String) (a : String) (c : CaipAddr)
    → (check_address n i a ≡ caip c)
      ↔ (InSize (no_prefix a) 4 65 × (c.namespace ≡ n) × (c.chain_id ≡ i) × (c.addr ≡ a))
unfolding check_address
check_address_iff n i a c = ground (arith, has_size_iff (no_prefix a) 4 65)

IsFree-of_is_blank : (s : String) → StrUtil.is_blank s ≡ true → IsFree b':' s
IsFree-of_is_blank s h = is_blank-IsFree b':' s (unfold StrUtil.is_space in refl) h

-- With a colon the string is neither empty nor blank.
parse_of_split :
    (s p q : String) (ps : List String)
    → StrUtil.split b':' s ≡ p ∷ q ∷ ps
    → (StrUtil.is_empty s || StrUtil.is_blank s) ≡ false
unfolding StrUtil.is_empty StrUtil.split
parse_of_split nil p q ps h = cc
parse_of_split (cons c s) p q ps h = elim (Bool-cases (StrUtil.is_blank (cons c s))) [
  | inl b ↦ cc (sym (split_of_IsFree b':' (cons c s) (IsFree-of_is_blank (cons c s) b)) ∙ h)
  | inr b ↦ b
]

split-print_two :
    (n a : String)
    → IsFree b':' n
    → IsFree b':' a
    → StrUtil.split b':' (join colon (n ∷ a ∷ [])) ≡ n ∷ a ∷ []
unfolding join
split-print_two n a hn ha =
    split-append b':' n colon a hn refl ∙ ap (◌∷◌ n) (split_of_IsFree b':' a ha)

split-print_three :
    (n i a : String)
    → IsFree b':' n
    → IsFree b':' i
    → IsFree b':' a
    → StrUtil.split b':' (join colon (n ∷ i ∷ a ∷ [])) ≡ n ∷ i ∷ a ∷ []
unfolding join
split-print_three n i a hn hi ha =
    split-append b':' n colon (join colon (i ∷ a ∷ [])) hn refl
    ∙ ap (◌∷◌ n) (split-print_two i a hi ha)

parse_caip_address-parts :
    (n a : String) (o : Option String)
    → IsCaip (record { namespace = n; chain_id = o; addr = a })
    → parse_caip_address (print (record { namespace = n; chain_id = o; addr = a }))
      ≡ caip (record { namespace = n; chain_id = o; addr = a })
unfolding print parse_caip_address check_components
parse_caip_address-parts n a none v =
    let e = split-print_two n a v.namespace_free v.addr_free in
    rw (parse_of_split (join colon (n ∷ a ∷ [])) n a [] e, e)
      (rw ((has_size_iff n 1 8).1 v.namespace_size)
        ((check_address_iff n none a _).1 (v.addr_size, refl, refl, refl)))
parse_caip_address-parts n a (some id) v =
    let e = split-print_three n id a v.namespace_free v.chain.1 v.addr_free in
    rw (parse_of_split (join colon (n ∷ id ∷ a ∷ [])) n id (a ∷ []) e, e)
      (rw ((has_size_iff n 1 8).1 v.namespace_size, (has_size_iff id 1 32).1 v.chain.0)
        ((check_address_iff n (some id) a _).1 (v.addr_size, refl, refl, refl)))

abbrev ChainSize : Option String → Type 0
ChainSize none = Unit
ChainSize (some id) = InSize id 1 32

check_components_sound :
    (n a : String) (o : Option String) (c : CaipAddr)
    → check_components n o a ≡ caip c
    → (c ≡ record { namespace = n; chain_id = o; addr = a })
      × InSize n 1 8
      × InSize (no_prefix a) 4 65
      × ChainSize o
unfolding check_components
check_components_sound n a none c h =
    ground (arith, has_size_iff n 1 8, check_address_iff n none a c)
check_components_sound n a (some id) c h =
    ground (arith, has_size_iff n 1 8, has_size_iff id 1 32, check_address_iff n (some id) a c)

-- An address that `parse` accepts is well-formed and is written as the input.
abbrev IsRead : CaipAddr → String → Type 0
IsRead c s = IsCaip c × (print c ≡ s)

split_sound :
    (s : String) (l : List String) (c : CaipAddr)
    → StrUtil.split b':' s ≡ l
    → parse_caip_address s ≡ caip c
    → IsRead c s
unfolding parse_caip_address print
split_sound s [] c e h = ground (arith, e)
split_sound s (p ∷ []) c e h = ground (arith, e)
split_sound s (p ∷ q ∷ r ∷ t ∷ l) c e h = ground (arith, e)
split_sound s (n ∷ a ∷ []) c e h =
    let k = rw (parse_of_split s n a [] e, e) at h in
    let (same, ns, asize, _) = check_components_sound n a none c k in
    let free = subst (All (IsFree b':')) e (split-IsFree b':' s) in
    rw same (
      record {
        namespace_size = ns;
        namespace_free = free.0;
        chain = tt;
        addr_size = asize;
        addr_free = free.1.0;
      },
      ap (join colon) (sym e) ∙ join-split colon s,
    )
split_sound s (n ∷ i ∷ a ∷ []) c e h =
    let k = rw (parse_of_split s n i (a ∷ []) e, e) at h in
    let (same, ns, asize, is) = check_components_sound n a (some i) c k in
    let free = subst (All (IsFree b':')) e (split-IsFree b':' s) in
    rw same (
      record {
        namespace_size = ns;
        namespace_free = free.0;
        chain = (is, free.1.0);
        addr_size = asize;
        addr_free = free.1.1.0;
      },
      ap (join colon) (sym e) ∙ join-split colon s,
    )

-- `parseCaipAddress` accepts exactly the strings that a well-formed address is written as, and
-- returns that address.
pub parse_caip_address_iff :
    (s : String) (c : CaipAddr) → (parse_caip_address s ≡ caip c) ↔ (IsCaip c × (print c ≡ s))
parse_caip_address_iff s c = (
  split_sound s (StrUtil.split b':' s) c refl,
  λ r.
      subst (λ t. parse_caip_address t ≡ caip c) r.1
        (parse_caip_address-parts c.namespace c.addr c.chain_id r.0),
)
