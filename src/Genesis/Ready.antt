-- ===== src/Genesis/Ready.antt =====
-- cmd/start.go: the rows that `loadGenesisData` makes are ready for both trees.
use reddit_commander.Prelude.{
  ℕ, zero, suc, ◌≡◌, refl, subst, List, [], ◌∷◌, All, All-append, replicate, Outcome, ok, err,
  panic, bind-eq-ok, ok_injective,
}
use reddit_commander.Bytes.{Str, Slice, to_string}
use reddit_commander.Constants.{status_active, type_terminal}
use reddit_commander.NodePath.{solidity_path_to_node_path}
use reddit_commander.Merkle.{Crypto, zero_value_leaf}
use reddit_commander.Merkle.Defaults.{zero_value_leaf-IsByteArray}
use reddit_commander.State.{UserState, new_user_state, create_account_hash}
use reddit_commander.State.Rows.{IsHash, to_string-IsHash}
use reddit_commander.Account.{Account, blank_account, new_account, populate_hash, new_empty_account}
use reddit_commander.Account.Start.{populate_hash-Populated}
use reddit_commander.Bazooka.{Frontend, encode_state}
use reddit_commander.Genesis.{
  Genesis, GenUserState, gen_account, gen_accounts, genesis_rows, expect,
}

expect-ok : {A : Type 0} (r : Outcome A) (a : A) → expect r ≡ ok a → r ≡ ok a
expect-ok (ok b) a e = e
expect-ok (err x) a e = cc
expect-ok panic a e = cc

replicate-All : {A : Type 0} (P : A → Type 0) (n : ℕ) (a : A) → P a → All P (replicate n a)
replicate-All P zero a h = tt
replicate-All P (suc n) a h = (h, replicate-All P n a h)

module _ (K : Crypto) (F : Frontend) (pack_bytes : Slice → Outcome Slice) where
  -- An account whose hash is there, and whose public key can be hashed again.
  pub record Ready (a : Account) : Type 0 where
    pub hash : IsHash a.hash
    pub again :
        (r : Account)
        → r.public_key ≡ a.public_key
        → (t : Account) × (populate_hash K pack_bytes r ≡ ok t)

  hashed-IsHash : (bz : Slice) → IsHash (K.hash_string (K.keccak256 bz))
  hashed-IsHash bz =
      rw (K.hash_string_lem (K.keccak256 bz))
        (to_string-IsHash (K.keccak256 bz) (K.keccak256-IsByteArray bz))

  create_account_hash-IsHash : (acc : UserState) → IsHash (create_account_hash K acc).hash
  unfolding create_account_hash
  create_account_hash-IsHash acc = hashed-IsHash acc.state_data

  new_user_state-IsHash :
      (id status : ℕ) (path : Str) (bz : Slice) → IsHash (new_user_state K id status path bz).hash
  unfolding new_user_state create_account_hash
  new_user_state-IsHash id status path bz = hashed-IsHash bz

  new_account-Ready :
      (id : ℕ) (key path : Str) (a : Account)
      → new_account K pack_bytes id key path ≡ ok a
      → Ready a
  unfolding new_account
  new_account-Ready id key path a e =
      let h =
        populate_hash-Populated K pack_bytes
          (record blank_account {
            id = id;
            public_key = key;
            path = path;
            node_type = type_terminal;
          })
          a e in
      record {
        hash = h.hash;
        again = λ r same. h.again r (subst (λ k. r.public_key ≡ k) h.public_key same);
      }

  empty-Ready : Ready (record new_empty_account { hash = to_string zero_value_leaf })
  unfolding populate_hash
  empty-Ready = record {
    hash = to_string-IsHash zero_value_leaf zero_value_leaf-IsByteArray;
    again = λ r same. (record r { hash = to_string zero_value_leaf }, rw same refl);
  }

  gen_account-Ready :
      (depth : ℕ) (acc : GenUserState) (made : UserState × Account)
      → gen_account K F pack_bytes depth acc ≡ ok made
      → IsHash made.0.hash × Ready made.1
  unfolding gen_account
  gen_account-Ready depth acc made e =
      let (path, found, e1) =
        bind-eq-ok (expect (solidity_path_to_node_path acc.account_id depth)) _ e in
      let (bz, packed, e2) =
        bind-eq-ok (expect (encode_state F acc.account_id acc.balance acc.nonce acc.token_type)) _
          e1 in
      let (a, new, e3) =
        bind-eq-ok (expect (new_account K pack_bytes acc.account_id acc.public_key path)) _ e2 in
      subst (λ (m : UserState × Account). IsHash m.0.hash × Ready m.1) (ok_injective e3)
        (
          new_user_state-IsHash acc.account_id status_active path bz,
          new_account-Ready acc.account_id acc.public_key path a (expect-ok _ a new),
        )

  gen_accounts-Ready :
      (depth : ℕ) (accounts : List GenUserState) (made : List UserState × List Account)
      → gen_accounts K F pack_bytes depth accounts ≡ ok made
      → All (λ r. IsHash r.hash) made.0 × All Ready made.1
  unfolding gen_accounts
  gen_accounts-Ready depth [] made e =
      subst (λ (m : List UserState × List Account). All (λ r. IsHash r.hash) m.0 × All Ready m.1)
        (ok_injective e) (tt, tt)
  gen_accounts-Ready depth (acc ∷ accounts) made e =
      let (one, made_one, e1) = bind-eq-ok (gen_account K F pack_bytes depth acc) _ e in
      let (rest, made_rest, e2) = bind-eq-ok (gen_accounts K F pack_bytes depth accounts) _ e1 in
      let h = gen_account-Ready depth acc one made_one in
      let hs = gen_accounts-Ready depth accounts rest made_rest in
      subst (λ (m : List UserState × List Account). All (λ r. IsHash r.hash) m.0 × All Ready m.1)
        (ok_injective e2) ((h.0, hs.0), (h.1, hs.1))

  pub genesis_rows-Ready :
      (g : Genesis) (made : List UserState × List Account)
      → genesis_rows K F pack_bytes g ≡ ok made
      → All (λ r. IsHash r.hash) made.0 × All Ready made.1
  unfolding genesis_rows
  genesis_rows-Ready g made e =
      let (some_made, first, e1) =
        bind-eq-ok (gen_accounts K F pack_bytes g.max_tree_depth g.genesis_accounts) _ e in
      let hs = gen_accounts-Ready g.max_tree_depth g.genesis_accounts some_made first in
      subst (λ (m : List UserState × List Account). All (λ r. IsHash r.hash) m.0 × All Ready m.1)
        (ok_injective e1)
        (
          All-append _ some_made.0 _ hs.0 (replicate-All _ _ _ (create_account_hash-IsHash _)),
          All-append _ some_made.1 _ hs.1 (replicate-All _ _ _ empty-Ready),
        )
