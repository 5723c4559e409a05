-- ===== src/Tests/Wallets.antt =====
-- Keys of a library in memory, whose signatures are the messages.
use reddit_commander.Prelude.{
  ℕ, zero, suc, ◌<◌, ◌≤◌, ◌≡◌, refl, sym, Bool, true, List, [], ◌∷◌, ◌++◌, length, replicate, All,
  drop, arith, none, some, Outcome, ok, err, call_failed, false, list_eq, list_eq_refl,
  ok_injective,
}
use reddit_commander.Bytes.{Slice}
use reddit_commander.Bytes.Hex.{encode}
use reddit_commander.Tx.{Tx}
use reddit_commander.Wallet.{
  Bls, Message, Wallet, wallet_bytes, secret_to_wallet, sign, create_message, sign_tx,
}
use reddit_commander.Wallet.Signed.{
  SignedBy, secret_to_wallet-wallet_bytes, sign_tx-SignedBy, aggregate_signatures_written,
}
use reddit_commander.Aggregator.{aggregate_signatures}
use reddit_commander.Tests.Stores.{transfer_tx}

abbrev flag : Bool → ℕ
flag true = 1
flag false = 0

abbrev key_of : Slice → Outcome Bool
key_of [] = err call_failed
key_of (zero ∷ bz) = ok false
key_of (suc b ∷ bz) = ok true

-- A key pair is one bit, which stands after the 128 bytes of the public key.
abbrev key_bytes : Bool → Slice
key_bytes k = replicate 127 9 ++ flag k ∷ flag k ∷ []

key_bytes-All : (k : Bool) → All (λ b. b < 256) (key_bytes k)
key_bytes-All true = omega arith
key_bytes-All false = omega arith

key_bytes-length : (k : Bool) → 128 ≤ length (key_bytes k)
key_bytes-length true = omega arith
key_bytes-length false = omega arith

key_of-key_bytes : (k : Bool) → key_of (drop 128 (key_bytes k)) ≡ ok k
key_of-key_bytes true = refl
key_of-key_bytes false = refl

signed_lem :
    (k : Bool) (m : Message) (s : Slice)
    → ok (flag k ∷ m.message) ≡ ok s
    → ok (list_eq s (flag k ∷ m.message)) ≡ ok true
signed_lem k m s e = rw (sym (ok_injective e), list_eq_refl (flag k ∷ m.message)) refl

abbrev flatten : List Slice → Slice
flatten [] = []
flatten (s ∷ ss) = s ++ flatten ss

abbrev bls : Bls
bls = record {
  KeyPair = Bool;
  PublicKey = Bool;
  Signature = Slice;
  public = λ k. k;
  to_bytes = key_bytes;
  to_bytes_lem = key_bytes-length;
  to_bytes-All = key_bytes-All;
  new_key_pair_from_bytes = λ bz. key_of (drop 128 bz);
  new_key_pair_from_bytes_lem = key_of-key_bytes;
  sign = λ k m. ok (flag k ∷ m.message);
  verify = λ m s k. ok (list_eq s (flag k ∷ m.message));
  verify_lem = signed_lem;
  verify_aggregate = λ ms keys s. ok true;
  aggregate_signatures = λ sigs. flatten sigs;
  signature_to_bytes = λ s. s;
  signature_key_from_bytes = λ bz. (some bz, none);
  signature_key_from_bytes_lem = λ s. refl;
}

abbrev wallet : Wallet bls
wallet = record { account = true }

abbrev pubkey : Slice
pubkey = replicate 127 9 ++ 1 ∷ []

secret_to_wallet-wallet_bytes_example :
    (secret : Slice) × (key : Slice) × (wallet_bytes bls wallet ≡ ok (secret, key))
    × (length key ≡ 128)
    × (secret_to_wallet bls secret key ≡ ok wallet)
secret_to_wallet-wallet_bytes_example = secret_to_wallet-wallet_bytes bls wallet

sign_tx-SignedBy_example :
    (tx' : Tx) × (sign_tx bls (encode (1 ∷ [])) (encode pubkey) (7 ∷ 7 ∷ []) transfer_tx ≡ ok tx')
    × SignedBy bls wallet (7 ∷ 7 ∷ []) transfer_tx tx'
unfolding wallet_bytes sign create_message
sign_tx-SignedBy_example =
    sign_tx-SignedBy bls wallet (1 ∷ []) pubkey (7 ∷ 7 ∷ []) transfer_tx (1 ∷ 7 ∷ 7 ∷ []) refl refl

aggregate_signatures_written_example :
    aggregate_signatures bls (transfer_tx ∷ record transfer_tx { signature = 3 ∷ 4 ∷ [] } ∷ [])
    ≡ ok (3 ∷ 4 ∷ [])
aggregate_signatures_written_example =
    aggregate_signatures_written bls
      (transfer_tx ∷ record transfer_tx { signature = 3 ∷ 4 ∷ [] } ∷ []) ([] ∷ (3 ∷ 4 ∷ []) ∷ [])
      refl
