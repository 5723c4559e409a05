-- ===== src/Wallet.antt =====
-- wallet/wallet.go and `SignTx` of core/tx.go: the keys of accounts and their signatures. The BLS
-- library is a parameter.
pub mod Signed
use reddit_commander.Prelude.{
  ℕ, ◌≤◌, ◌<◌, All, ◌≡◌, Option, none, some, Bool, true, List, [], ◌∷◌, ◌++◌, length, take, drop,
  replicate, Outcome, Error, ok, err, panic, bind, ltb, if◌then◌else◌,
}
use reddit_commander.Bytes.{Str, Slice, ByteArray}
use reddit_commander.Bytes.Hex.{decode}
use reddit_commander.Tx.{Tx}

-- `bls.Message`.
pub record Message : Type 0 where
  pub message : Slice
  pub domain : Slice

-- github.com/kilic/bn254/bls, with the hasher of the wallet.
pub record Bls : Type 1 where
  pub KeyPair : Type 0
  pub PublicKey : Type 0
  pub Signature : Type 0
  pub public : KeyPair → PublicKey
  -- a public key of 128 bytes, then the secret key
  pub to_bytes : KeyPair → Slice
  pub to_bytes_lem : (k : KeyPair) → 128 ≤ length (to_bytes k)
  pub to_bytes-All : (k : KeyPair) → All (λ b. b < 256) (to_bytes k)
  pub new_key_pair_from_bytes : Slice → Outcome KeyPair
  pub new_key_pair_from_bytes_lem : (k : KeyPair) → new_key_pair_from_bytes (to_bytes k) ≡ ok k
  pub sign : KeyPair → Message → Outcome Signature
  pub verify : Message → Signature → PublicKey → Outcome Bool
  pub verify_lem :
      (k : KeyPair) (m : Message) (s : Signature)
      → sign k m ≡ ok s
      → verify m s (public k) ≡ ok true
  pub verify_aggregate : List Message → List PublicKey → Signature → Outcome Bool
  pub aggregate_signatures : List Signature → Signature
  pub signature_to_bytes : Signature → Slice
  -- SignatureKeyFromBytes: a pointer, which may be nil, and an error, which may be nil
  pub signature_key_from_bytes : Slice → Option Signature × Option Error
  pub signature_key_from_bytes_lem :
      (s : Signature) → signature_key_from_bytes (signature_to_bytes s) ≡ (some s, none)

unfoldable pub create_message : Slice → Message
create_message bytes = record { message = bytes; domain = 0 ∷ 0 ∷ 0 ∷ 0 ∷ [] }

module _ (B : Bls) where
  -- `type Wallet struct`.
  pub record Wallet : Type 0 where
    pub account : B.KeyPair

  abbrev unless {ℓ} : {A : Type ℓ} → Option Error → A → Outcome A
  unless none a = ok a
  unless (some e) a = err e

  -- `BytesToSignature`: the pointer is followed before the error is looked at.
  unfoldable pub bytes_to_signature : Slice → Outcome B.Signature
  bytes_to_signature b =
      let found : Option B.Signature × Option Error = B.signature_key_from_bytes b in
      elim found.0 [ none ↦ panic | some sig ↦ unless found.1 sig ]

  -- `getBLSSignatures`: every element points to the loop's one variable, which ends as the last
  -- signature.
  unfoldable pub get_bls_signatures : List B.Signature → List B.Signature
  get_bls_signatures [] = []
  get_bls_signatures (sig ∷ sigs) = replicate (length (sig ∷ sigs)) (last sig sigs)
    where
      last : B.Signature → List B.Signature → B.Signature
      last sig [] = sig
      last sig (next ∷ sigs) = last next sigs

  -- `Bytes`: the secret key and the public key. A slice of fewer than 128 bytes cannot be cut.
  unfoldable pub wallet_bytes : Wallet → Outcome (Slice × Slice)
  wallet_bytes w =
      let account_bytes : Slice = B.to_bytes w.account in
      if ltb (length account_bytes) 128
      then panic
      else ok (drop 128 account_bytes, take 128 account_bytes)

  unfoldable pub secret_to_wallet : Slice → Slice → Outcome Wallet
  secret_to_wallet secret_key pubkey =
      bind (B.new_key_pair_from_bytes (pubkey ++ secret_key))
        λ key_pair. ok (record { account = key_pair })

  -- `Sign`.
  unfoldable pub sign : Wallet → Slice → Outcome B.Signature
  unfolding create_message
  sign w bytes = B.sign w.account (create_message bytes)

  -- `VerifySignature`, which does not use the public key that it is given.
  unfoldable pub verify_signature : Wallet → Slice → B.Signature → B.PublicKey → Outcome Bool
  unfolding create_message
  verify_signature w bytes signature pubkey =
      B.verify (create_message bytes) signature (B.public w.account)

  unfoldable pub verify_aggregated_signature :
      List Message → List B.PublicKey → B.Signature → Outcome Bool
  verify_aggregated_signature messages pubkeys aggregate_signature =
      B.verify_aggregate messages pubkeys aggregate_signature

  -- `NewAggregateSignature`.
  unfoldable pub new_aggregate_signature : List B.Signature → Outcome B.Signature
  new_aggregate_signature signatures = ok (B.aggregate_signatures signatures)

  -- `SignTx` of core/tx.go: the keys are hexadecimal text.
  unfoldable pub sign_tx : Str → Str → ByteArray → Tx → Outcome Tx
  unfolding secret_to_wallet sign
  sign_tx key pubkey tx_bytes tx = bind (decode key) λ priv_key_bytes.
      bind (decode pubkey) λ pubkey_bytes.
        bind (secret_to_wallet priv_key_bytes pubkey_bytes) λ wallet.
          bind (sign wallet tx_bytes) λ sig. ok (record tx { signature = B.signature_to_bytes sig })
