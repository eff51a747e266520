-- ===== src/ChainSpec/Genesis.antt =====
-- What the chains of chain_spec.rs start with.
use Prim.Native.String.{String}
use mathlib.Core.Option.{bind}
use archer_in_zoo.Prelude.{
  true, ℕ, suc, ◌+◌, ◌*◌, ◌^◌, ◌≤◌, ◌<◌, ◌≡◌, refl, sym, ap, ◌∙◌, Option, none, some, List, [], ◌∷◌,
  map, length, arith, Option-cases, inl, inr,
}
use archer_in_zoo.Outcome.{ok}
use archer_in_zoo.ChainSpec.{
  Alternative, development, local_testnet, GenesisConfig, Spec, Pairs, alternative_from,
  get_from_seed, get_all, testnet_genesis, get_authority_keys_from_seed, get_authorities,
  build_genesis, load, load_spec,
}

abbrev pub total : {K : Type 0} → List (K × ℕ) → ℕ
total [] = 0
total (x ∷ xs) = x.1 + total xs

total_same : {K : Type 0} (v : ℕ) (ks : List K) → total (map (λ k. (k, v)) ks) ≡ length ks * v
total_same v [] = omega arith
total_same v (k ∷ ks) = grind (arith, total_same v ks)

length-map : {A B : Type 0} (f : A → B) (xs : List A) → length (map f xs) ≡ length xs
length-map f [] = refl
length-map f (x ∷ xs) = ground (arith, length-map f xs)

-- A step that gives a result, and what follows it.
step_some :
    {A B : Type 0} (o : Option A) (f : A → Option B) (b : B)
    → bind o f ≡ some b
    → (a : A) × (o ≡ some a) × (f a ≡ some b)
unfolding bind
step_some none f b e = cc
step_some (some a) f b e = (a, refl, e)

some_eq : {A : Type 0} {a b : A} → some a ≡ some b → a ≡ b
some_eq e = cc

get_all-cons :
    {K : Type 0} (f : String → Option K) (seed : String) (seeds : List String) (ks : List K)
    → get_all f (seed ∷ seeds) ≡ some ks
    → (k : K) × (rest : List K) × (get_from_seed f seed ≡ some k)
      × (get_all f seeds ≡ some rest)
      × (ks ≡ k ∷ rest)
unfolding get_all
get_all-cons f seed seeds ks e =
    let (k, first, e1) =
      step_some (get_from_seed f seed) (λ k. bind (get_all f seeds) λ rest. some (k ∷ rest)) ks e in
    let (rest, others, e2) = step_some (get_all f seeds) (λ rest. some (k ∷ rest)) ks e1 in
    (k, rest, first, others, sym (some_eq e2))

length-get_all :
    {K : Type 0} (f : String → Option K) (seeds : List String) (ks : List K)
    → get_all f seeds ≡ some ks
    → length ks ≡ length seeds
unfolding get_all
length-get_all f [] ks e = rw (← some_eq e) refl
length-get_all f (seed ∷ seeds) ks e =
    let (k, rest, first, others, same) = get_all-cons f seed seeds ks e in
    rw same (ap suc (length-get_all f seeds rest others))

module _ {AccountId AuraId GrandpaId : Type 0} where
  -- Every account that the chain names has an index and the same balance, the first is the root, and
  -- both kinds of authority are as many as there are.
  pub record IsFunded (g : GenesisConfig AccountId AuraId GrandpaId) : Type 0 where
    pub balances : g.balances ≡ map (λ k. (k, 2 ^ 60)) g.indices
    pub rest : List AccountId
    pub root : g.indices ≡ g.sudo ∷ rest
    pub authorities : length g.aura ≡ length g.grandpa
    pub some_authority : 0 < length g.aura
    pub issuance : total g.balances < 2 ^ 128

  testnet_genesis-IsFunded :
      (code : List ℕ) (authorities : List (AuraId × GrandpaId)) (root : AccountId)
      (rest : List AccountId)
      → 0 < length authorities
      → length rest ≤ 100
      → IsFunded (testnet_genesis code authorities root (root ∷ rest) true)
  unfolding testnet_genesis
  testnet_genesis-IsFunded code authorities root rest someone few =
      let sum = total_same (2 ^ 60) rest in
      record {
        balances = refl;
        rest = rest;
        root = refl;
        authorities = length-map _ authorities ∙ sym (length-map _ authorities);
        some_authority = rw (length-map {B = AuraId} (λ x. x.0) authorities) someone;
        issuance = omega (arith, sum, few);
      }

  module _ (p : Pairs AccountId AuraId GrandpaId) where
    get_authorities-cons :
        (seed : String) (seeds : List String) (ks : List (AuraId × GrandpaId))
        → get_authorities p (seed ∷ seeds) ≡ some ks
        → 0 < length ks
    unfolding get_authorities
    get_authorities-cons seed seeds ks e =
        let (k, first, e1) =
          step_some (get_authority_keys_from_seed p seed)
            (λ k. bind (get_authorities p seeds) λ rest. some (k ∷ rest)) ks e in
        let (rest, others, e2) =
          step_some (get_authorities p seeds) (λ rest. some (k ∷ rest)) ks e1 in
        rw (← some_eq e2) (omega arith)

    build_genesis-IsFunded :
        (authority : String) (authorities : List String) (root : String) (endowed : List String)
        (g : GenesisConfig AccountId AuraId GrandpaId)
        → length endowed ≤ 100
        → build_genesis p (authority ∷ authorities) root (root ∷ endowed) ≡ some g
        → IsFunded g
    unfolding build_genesis
    build_genesis-IsFunded authority authorities root endowed g few e =
        let (aus, has_authorities, e1) =
          step_some (get_authorities p (authority ∷ authorities))
            (λ aus. bind (get_from_seed p.account root) λ k.
              bind (get_all p.account (root ∷ endowed))
                λ ks. some (testnet_genesis p.wasm_binary aus k ks true))
            g e in
        let (k, has_root, e2) =
          step_some (get_from_seed p.account root)
            (λ k.
              bind (get_all p.account (root ∷ endowed))
                λ ks. some (testnet_genesis p.wasm_binary aus k ks true))
            g e1 in
        let (ks, has_accounts, e3) =
          step_some (get_all p.account (root ∷ endowed))
            (λ ks. some (testnet_genesis p.wasm_binary aus k ks true)) g e2 in
        let (k', rest, first, others, same) = get_all-cons p.account root endowed ks has_accounts in
        let same_key : k' ≡ k = some_eq (sym first ∙ has_root) in
        let size = length-get_all p.account endowed rest others in
        rw (← some_eq e3, same, same_key)
          (testnet_genesis-IsFunded p.wasm_binary aus k rest
            (get_authorities-cons authority authorities aus has_authorities)
            (omega (arith, size, few)))

    loaded_eq : {x y : Spec AccountId AuraId GrandpaId} → ok (some x) ≡ ok (some y) → x ≡ y
    loaded_eq e = cc

    load-ok : (a : Alternative) → (s : Spec AccountId AuraId GrandpaId) × (load p a ≡ ok s)
    unfolding load
    load-ok development = (_, refl)
    load-ok local_testnet = (_, refl)

    ok_eq : {x y : Spec AccountId AuraId GrandpaId} → ok x ≡ ok y → x ≡ y
    ok_eq e = cc

    loaded-IsFunded :
        (a : Alternative) (s : Spec AccountId AuraId GrandpaId)
        (g : GenesisConfig AccountId AuraId GrandpaId)
        → load p a ≡ ok s
        → s.genesis ≡ some g
        → IsFunded g
    unfolding load
    loaded-IsFunded development s g e built =
        build_genesis-IsFunded "Alice" [] "Alice" ("Bob" ∷ "Alice//stash" ∷ "Bob//stash" ∷ []) g
          (omega arith) (ap (λ (x : Spec AccountId AuraId GrandpaId). x.genesis) (ok_eq e) ∙ built)
    loaded-IsFunded local_testnet s g e built =
        build_genesis-IsFunded "Alice" ("Bob" ∷ []) "Alice"
          ("Bob" ∷ "Charlie" ∷ "Dave" ∷ "Eve" ∷ "Ferdie" ∷ "Alice//stash" ∷ "Bob//stash"
            ∷ "Charlie//stash" ∷ "Dave//stash" ∷ "Eve//stash" ∷ "Ferdie//stash" ∷ [])
          g (omega arith)
          (ap (λ (x : Spec AccountId AuraId GrandpaId). x.genesis) (ok_eq e) ∙ built)

    -- In every chain that `load_spec` finds and whose genesis is built, each account that is named has
    -- an index and a balance of 2 ^ 60, the root is the first of them, the authorities of both kinds
    -- are equally many and at least one, and all balances together are below 2 ^ 128.
    pub load_spec-IsFunded :
        (id : String) (spec : Spec AccountId AuraId GrandpaId)
        (g : GenesisConfig AccountId AuraId GrandpaId)
        → load_spec p id ≡ ok (some spec)
        → spec.genesis ≡ some g
        → IsFunded g
    unfolding load_spec
    load_spec-IsFunded id spec g e built = elim (Option-cases (alternative_from id)) [
      | inl unknown ↦ let no = rw (unknown, load_spec) at e in cc
      | inr (alternative, known) ↦
          let (found, loaded) = load-ok alternative in
          let same : found ≡ spec = loaded_eq (rw (known, loaded, load_spec) at e) in
          loaded-IsFunded alternative found g loaded
            (ap (λ (x : Spec AccountId AuraId GrandpaId). x.genesis) same ∙ built)
    ]
