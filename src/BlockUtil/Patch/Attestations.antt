-- ===== src/BlockUtil/Patch/Attestations.antt =====
-- The lists of attestations, after a patch has added one to each.
use push_snode.Base.{
  ok-injective, ℕ, zero, suc, ◌<◌, ◌≡◌, refl, sym, ◌∙◌, ap, subst, List, [], ◌∷◌, ◌++◌, some, ok,
  arith, length, get_elem?, >>=-eq-ok, string_eq, map,
}
use push_snode.Proto.{TxAttestorData, TransactionObj}
use push_snode.BlockUtil.Signers.{only_one_attestation, clear_attestordata}
use push_snode.BlockUtil.Patch.{push_attestations, set_attestations}

pub get_elem?-before {ℓ} :
    {A : Type ℓ} (xs : List A) (x : A) (i : ℕ)
    → i < length xs
    → get_elem? (xs ++ (x ∷ [])) i ≡ get_elem? xs i
get_elem?-before [] x i h = absurd (omega arith)
get_elem?-before (y ∷ ys) x zero h = refl
get_elem?-before (y ∷ ys) x (suc i) h = get_elem?-before ys x i (omega arith)

pub get_elem?-last {ℓ} :
    {A : Type ℓ} (xs : List A) (x : A) → get_elem? (xs ++ (x ∷ [])) (length xs) ≡ some x
get_elem?-last [] x = refl
get_elem?-last (y ∷ ys) x = get_elem?-last ys x

pub length-snoc {ℓ} : {A : Type ℓ} (xs : List A) (x : A) → length (xs ++ (x ∷ [])) ≡ suc (length xs)
length-snoc [] x = refl
length-snoc (y ∷ ys) x = ap suc (length-snoc ys x)

-- Every transaction has `n` attestations.
unfoldable pub HaveAttestations : ℕ → List TransactionObj → Type 0
HaveAttestations n [] = Unit
HaveAttestations n (o ∷ objs) = (length o.attestordata ≡ n) × HaveAttestations n objs

-- An attestation that was there is found as before.
pub only_one-before :
    (n i : ℕ) (objs objs' : List TransactionObj) (datas : List TxAttestorData)
    → HaveAttestations n objs
    → i < n
    → push_attestations objs datas ≡ ok objs'
    → only_one_attestation i objs' objs' ≡ only_one_attestation i objs objs
unfolding only_one_attestation push_attestations HaveAttestations
only_one-before n i [] objs' datas w lt h = rw (sym (ok-injective h)) refl
only_one-before n i (o ∷ objs) objs' [] w lt h = cc
only_one-before n i (o ∷ objs) objs' (a ∷ datas) w lt h =
    let (rest, q, k) = >>=-eq-ok (push_attestations objs datas) _ h in
    let ih : only_one_attestation i rest rest ≡ only_one_attestation i objs objs =
      only_one-before n i objs rest datas w.1 lt q in
    let found : get_elem? (o.attestordata ++ (a ∷ [])) i ≡ get_elem? o.attestordata i =
      get_elem?-before o.attestordata a i (omega (arith, w.0)) in
    rw (sym (ok-injective k)) (rw (found, ih) refl)

-- The new attestation is found behind the others.
pub only_one-last :
    (n : ℕ) (objs objs' : List TransactionObj) (datas : List TxAttestorData)
    → HaveAttestations n objs
    → push_attestations objs datas ≡ ok objs'
    → only_one_attestation n objs' objs' ≡ set_attestations objs datas
unfolding only_one_attestation push_attestations set_attestations HaveAttestations
only_one-last n [] objs' datas w h = rw (sym (ok-injective h)) refl
only_one-last n (o ∷ objs) objs' [] w h = cc
only_one-last n (o ∷ objs) objs' (a ∷ datas) w h =
    let (rest, q, k) = >>=-eq-ok (push_attestations objs datas) _ h in
    let ih : only_one_attestation n rest rest ≡ set_attestations objs datas =
      only_one-last n objs rest datas w.1 q in
    let found : get_elem? (o.attestordata ++ (a ∷ [])) n ≡ some a =
      subst (λ m. get_elem? (o.attestordata ++ (a ∷ [])) m ≡ some a) w.0
        (get_elem?-last o.attestordata a) in
    rw (sym (ok-injective k)) (rw (found, ih) refl)

pub push-HaveAttestations :
    (n : ℕ) (objs objs' : List TransactionObj) (datas : List TxAttestorData)
    → HaveAttestations n objs
    → push_attestations objs datas ≡ ok objs'
    → HaveAttestations (suc n) objs'
unfolding push_attestations HaveAttestations
push-HaveAttestations n [] objs' datas w h = rw (sym (ok-injective h)) tt
push-HaveAttestations n (o ∷ objs) objs' [] w h = cc
push-HaveAttestations n (o ∷ objs) objs' (a ∷ datas) w h =
    let (rest, q, k) = >>=-eq-ok (push_attestations objs datas) _ h in
    rw (sym (ok-injective k))
      ((length-snoc o.attestordata a ∙ ap suc w.0, push-HaveAttestations n objs rest datas w.1 q))

-- What was there of the transactions stays.
pub map-clear :
    (objs objs' : List TransactionObj) (datas : List TxAttestorData)
    → push_attestations objs datas ≡ ok objs'
    → map clear_attestordata objs' ≡ map clear_attestordata objs
unfolding push_attestations
map-clear [] objs' datas h = rw (sym (ok-injective h)) refl
map-clear (o ∷ objs) objs' [] h = cc
map-clear (o ∷ objs) objs' (a ∷ datas) h =
    let (rest, q, k) = >>=-eq-ok (push_attestations objs datas) _ h in
    rw (sym (ok-injective k)) (ap (λ os. clear_attestordata o ∷ os) (map-clear objs rest datas q))
