-- ===== src/Genesis/Filled.antt =====
-- config/genesis.go and cmd/start.go: what `Validate` accepts, and how many rows are made of it.
use reddit_commander.Prelude.{
  ℕ, suc, ◌-◌, ◌^◌, ◌≤◌, ◌≡◌, ok_injective, sym, ◌⊎◌, List-cases, too_many_accounts, no_accounts,
  not_coordinator, ap, ◌∙◌, true, false, Bool-cases, inl, inr, List, [], ◌∷◌, ◌++◌, arith, length,
  length-append, length-replicate, replicate, Outcome, ok, err, bind-eq-ok, ltb,
}
use reddit_commander.Bytes.{Slice}
use reddit_commander.Merkle.{Crypto}
use reddit_commander.State.{UserState}
use reddit_commander.Account.{Account}
use reddit_commander.Bazooka.{Frontend}
use reddit_commander.Genesis.{
  Genesis, GenUserState, is_coordinator, validate, gen_account, gen_accounts, genesis_rows,
}

-- What `Validate` checks.
pub record IsValid (g : Genesis) : Type 0 where
  pub fits : length g.genesis_accounts ≤ 2 ^ g.max_tree_depth
  pub first : GenUserState
  pub others : List GenUserState
  pub accounts : g.genesis_accounts ≡ first ∷ others
  pub zero_id : first.account_id ≡ 0
  pub zero_balance : first.balance ≡ 0
  pub zero_token : first.token_type ≡ 0
  pub zero_nonce : first.nonce ≡ 0

ltb-false : (a b : ℕ) → ltb a b ≡ false → b ≤ a
ltb-false a b h = ground (arith, h)

coordinator_zero :
    (acc : GenUserState)
    → is_coordinator acc ≡ true
    → (acc.account_id ≡ 0) × (acc.balance ≡ 0) × (acc.token_type ≡ 0) × (acc.nonce ≡ 0)
unfolding is_coordinator
coordinator_zero acc h = ground (arith, h)

-- A genesis file that `Validate` accepts has no more accounts than leaves, and its first account is
-- there, with the id, the balance, the token and the nonce 0.
pub validate-IsValid : (g : Genesis) → validate g ≡ ok tt → IsValid g
unfolding validate
validate-IsValid g h = elim (Bool-cases (ltb (2 ^ g.max_tree_depth) (length g.genesis_accounts))) [
  | inl e ↦ let broken : err too_many_accounts ≡ ok tt = rw e at h in cc
  | inr e ↦ elim (List-cases g.genesis_accounts) [
    | inl none_there ↦ let broken : err no_accounts ≡ ok tt = rw (e, none_there) at h in cc
    | inr (first, others, same) ↦ by_first e first others same (Bool-cases (is_coordinator first))
  ]
]
  where
    by_first :
        ltb (2 ^ g.max_tree_depth) (length g.genesis_accounts) ≡ false
        → (first : GenUserState) (others : List GenUserState) → g.genesis_accounts ≡ first ∷ others
        → (is_coordinator first ≡ true) ⊎ (is_coordinator first ≡ false)
        → IsValid g
    by_first e first others same (inl c) =
        let (zero_id, zero_balance, zero_token, zero_nonce) = coordinator_zero first c in
        record {
          fits = ltb-false (2 ^ g.max_tree_depth) (length g.genesis_accounts) e;
          first = first;
          others = others;
          accounts = same;
          zero_id = zero_id;
          zero_balance = zero_balance;
          zero_token = zero_token;
          zero_nonce = zero_nonce;
        }
    by_first e first others same (inr c) =
        let broken : err not_coordinator ≡ ok tt = rw (e, same, c) at h in cc

length-filled :
    {A : Type 0} (xs : List A) (a : A) {n m : ℕ}
    → length xs ≡ n
    → n ≤ m
    → length (xs ++ replicate (m - n) a) ≡ m
length-filled xs a {n = n} {m = m} e le =
    omega (arith, e, length-append xs (replicate (m - n) a), length-replicate (m - n) a)

module _ (K : Crypto) (F : Frontend) (pack_bytes : Slice → Outcome Slice) where
  length-gen_accounts :
      (depth : ℕ) (accounts : List GenUserState) (made : List UserState × List Account)
      → gen_accounts K F pack_bytes depth accounts ≡ ok made
      → (length made.0 ≡ length accounts) × (length made.1 ≡ length accounts)
  unfolding gen_accounts
  length-gen_accounts depth [] made h =
      let e : ([], []) ≡ made = cc in (ap (λ m. length m.0) (sym e), ap (λ m. length m.1) (sym e))
  length-gen_accounts depth (acc ∷ accounts) made h =
      let (one, made_one, h1) = bind-eq-ok (gen_account K F pack_bytes depth acc) _ h in
      let (rest, made_rest, h2) = bind-eq-ok (gen_accounts K F pack_bytes depth accounts) _ h1 in
      let (states, accs) = length-gen_accounts depth accounts rest made_rest in
      let e : (one.0 ∷ rest.0, one.1 ∷ rest.1) ≡ made = cc in
      (ap (λ m. length m.0) (sym e) ∙ ap suc states, ap (λ m. length m.1) (sym e) ∙ ap suc accs)

  -- From a file that `Validate` accepts `loadGenesisData` makes, where it makes any, exactly as many
  -- rows for each tree as a tree of the file's depth has leaves, the count that `InitStateTree` and
  -- `InitAccountTree` ask for.
  pub length-genesis_rows :
      (g : Genesis) (made : List UserState × List Account)
      → validate g ≡ ok tt
      → genesis_rows K F pack_bytes g ≡ ok made
      → (length made.0 ≡ 2 ^ g.max_tree_depth) × (length made.1 ≡ 2 ^ g.max_tree_depth)
  unfolding genesis_rows
  length-genesis_rows g made valid h =
      let (some_made, made_some, h1) =
        bind-eq-ok (gen_accounts K F pack_bytes g.max_tree_depth g.genesis_accounts) _ h in
      let (states, accs) =
        length-gen_accounts g.max_tree_depth g.genesis_accounts some_made made_some in
      let fits : length g.genesis_accounts ≤ 2 ^ g.max_tree_depth =
        (validate-IsValid g valid).fits in
      (
        ap (λ m. length m.0) (sym (ok_injective h1)) ∙ length-filled some_made.0 _ states fits,
        ap (λ m. length m.1) (sym (ok_injective h1)) ∙ length-filled some_made.1 _ accs fits,
      )
