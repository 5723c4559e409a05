-- ===== src/Genesis/Keys.antt =====
-- cmd/start.go and core/account.go: the public keys of a genesis file that can be loaded.
use reddit_commander.Prelude.{
  ℕ, ◌≡◌, ◌⊎◌, Bool-cases, inl, inr, List, [], ◌∷◌, All, Outcome, Outcome-cases, ok, err, panic,
  panic≢ok, bind-eq-ok, list_eq, list_eq→eq,
}
use reddit_commander.Bytes.{Str, Slice}
use reddit_commander.Bytes.Hex.{decode}
use reddit_commander.NodePath.{solidity_path_to_node_path}
use reddit_commander.Merkle.{Crypto}
use reddit_commander.State.{UserState}
use reddit_commander.Account.{Account, new_account, populate_hash, encode_pubkey}
use reddit_commander.Bazooka.{Frontend, encode_state}
use reddit_commander.Genesis.{GenUserState, expect, gen_account, gen_accounts}

-- A public key is missing, or it is hexadecimal text without a prefix.
abbrev pub IsReadable : Str → Type 0
IsReadable key = (key ≡ []) ⊎ ((bz : Slice) × (decode key ≡ ok bz))

module _ (K : Crypto) (F : Frontend) (pack_bytes : Slice → Outcome Slice) where
  encode_pubkey-ok :
      (key : Str) (bz : Slice)
      → encode_pubkey pack_bytes key ≡ ok bz
      → (pubkey_bytes : Slice) × (decode key ≡ ok pubkey_bytes)
  unfolding encode_pubkey
  encode_pubkey-ok key bz h = elim (Outcome-cases (decode key)) [
    | inl found ↦ found
    | inr (inl (e, bad)) ↦
        let broken : panic ≡ ok bz = rw (encode_pubkey, bad) at h in absurd (panic≢ok broken)
    | inr (inr bad) ↦
        let broken : panic ≡ ok bz = rw (encode_pubkey, bad) at h in absurd (panic≢ok broken)
  ]

  new_account-IsReadable :
      (id : ℕ) (key path : Str) (acc : Account)
      → new_account K pack_bytes id key path ≡ ok acc
      → IsReadable key
  unfolding new_account populate_hash
  new_account-IsReadable id key path acc h = elim (Bool-cases (list_eq key [])) [
    | inl e ↦ inl (list_eq→eq key [] e)
    | inr e ↦
        let (bz, found, rest) =
          bind-eq-ok {B = Account} (encode_pubkey pack_bytes key) _ (rw e at h) in
        inr (encode_pubkey-ok key bz found)
  ]

  expect-ok : {A : Type 0} (r : Outcome A) {a : A} → expect r ≡ ok a → r ≡ ok a
  expect-ok (ok a) h = h
  expect-ok (err e) h = cc
  expect-ok panic h = cc

  -- Where rows are made for the accounts of a genesis file at all, every public key in it is missing
  -- or hexadecimal text.
  pub gen_accounts-IsReadable :
      (depth : ℕ) (accounts : List GenUserState) (made : List UserState × List Account)
      → gen_accounts K F pack_bytes depth accounts ≡ ok made
      → All (λ acc. IsReadable acc.public_key) accounts
  unfolding gen_accounts gen_account
  gen_accounts-IsReadable depth [] made h = tt
  gen_accounts-IsReadable depth (acc ∷ accounts) made h =
      let (one, made_one, h1) = bind-eq-ok (gen_account K F pack_bytes depth acc) _ h in
      let (rest, made_rest, h2) = bind-eq-ok (gen_accounts K F pack_bytes depth accounts) _ h1 in
      let (path, p, h3) =
        bind-eq-ok (expect (solidity_path_to_node_path acc.account_id depth)) _ made_one in
      let (bz, s, h4) =
        bind-eq-ok (expect (encode_state F acc.account_id acc.balance acc.nonce acc.token_type)) _
          h3 in
      let (new_acc, n, h5) =
        bind-eq-ok (expect (new_account K pack_bytes acc.account_id acc.public_key path)) _ h4 in
      (
        new_account-IsReadable acc.account_id acc.public_key path new_acc (expect-ok _ n),
        gen_accounts-IsReadable depth accounts rest made_rest,
      )
