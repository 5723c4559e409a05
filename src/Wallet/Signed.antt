-- ===== src/Wallet/Signed.antt =====
-- wallet/wallet.go and core/tx.go: keys written and read back, and signed transactions.
use reddit_commander.Prelude.{
  ℕ, ◌≤◌, ◌<◌, ◌≡◌, refl, sym, ap, ◌∙◌, true, List, [], ◌∷◌, ◌++◌, length, take, drop, All, arith,
  ok, zero, suc, le→ltb, ok_injective, map,
}
use reddit_commander.Bytes.{Slice, ByteArray}
use reddit_commander.Bytes.Hex.{encode, decode-encode}
use reddit_commander.Tx.{Tx}
use reddit_commander.Wallet.{
  Bls, Wallet, bytes_to_signature, wallet_bytes, secret_to_wallet, create_message, sign,
  verify_signature, sign_tx,
}
use reddit_commander.Aggregator.{aggregate_signatures, read_signatures}

take-drop {ℓ} : {A : Type ℓ} (n : ℕ) (xs : List A) → take n xs ++ drop n xs ≡ xs
take-drop zero xs = refl
take-drop (suc n) [] = refl
take-drop (suc n) (x ∷ xs) = ap (λ ys. x ∷ ys) (take-drop n xs)

All-take {ℓ κ} :
    {A : Type ℓ} (P : A → Type κ) (n : ℕ) (xs : List A)
    → All P xs
    → All P (take n xs) × All P (drop n xs)
All-take P zero xs h = (tt, h)
All-take P (suc n) [] h = (tt, tt)
All-take P (suc n) (x ∷ xs) h = let rest = All-take P n xs h.1 in ((h.0, rest.0), rest.1)

length-take_exact {ℓ} : {A : Type ℓ} (n : ℕ) (xs : List A) → n ≤ length xs → length (take n xs) ≡ n
length-take_exact zero xs h = refl
length-take_exact (suc n) [] h = absurd (omega arith)
length-take_exact (suc n) (x ∷ xs) h = ap suc (length-take_exact n xs (omega arith))

module _ (B : Bls) where
  abbrev secret_of : Wallet B → Slice
  secret_of w = drop 128 (B.to_bytes w.account)

  abbrev pubkey_of : Wallet B → Slice
  pubkey_of w = take 128 (B.to_bytes w.account)

  wallet_bytes_lem : (w : Wallet B) → wallet_bytes B w ≡ ok (secret_of w, pubkey_of w)
  unfolding wallet_bytes
  wallet_bytes_lem w =
      rw (le→ltb (length (B.to_bytes w.account)) 128 (B.to_bytes_lem w.account)) refl

  secret_to_wallet_lem : (w : Wallet B) → secret_to_wallet B (secret_of w) (pubkey_of w) ≡ ok w
  unfolding secret_to_wallet
  secret_to_wallet_lem w =
      rw (take-drop 128 (B.to_bytes w.account), B.new_key_pair_from_bytes_lem w.account) refl

  -- `Bytes` returns without a panic, and `SecretToWallet` makes of the two slices that it returns the
  -- same wallet. The public key has 128 bytes.
  pub secret_to_wallet-wallet_bytes :
      (w : Wallet B)
      → (secret : Slice) × (pubkey : Slice) × (wallet_bytes B w ≡ ok (secret, pubkey))
        × (length pubkey ≡ 128)
        × (secret_to_wallet B secret pubkey ≡ ok w)
  secret_to_wallet-wallet_bytes w = (
    secret_of w,
    pubkey_of w,
    wallet_bytes_lem w,
    length-take_exact 128 (B.to_bytes w.account) (B.to_bytes_lem w.account),
    secret_to_wallet_lem w,
  )

  written_lem : (s : B.Signature) → bytes_to_signature B (B.signature_to_bytes s) ≡ ok s
  unfolding bytes_to_signature
  written_lem s =
      rw (bytes_to_signature, B.signature_key_from_bytes_lem s, B.signature_key_from_bytes_lem s)
        refl

  -- What `SignTx` leaves of a transaction: nothing is changed but the signature, whose bytes read back
  -- as one that the signer's public key verifies.
  pub record SignedBy (w : Wallet B) (tx_bytes : ByteArray) (tx tx' : Tx) : Type 0 where
    pub signature : B.Signature
    pub stored : tx' ≡ record tx { signature = B.signature_to_bytes signature }
    pub readable : bytes_to_signature B tx'.signature ≡ ok signature
    pub verified : (pubkey : B.PublicKey) → verify_signature B w tx_bytes signature pubkey ≡ ok true

  -- Where the library makes a signature: `SignTx` with the hexadecimal text of the two slices that
  -- `Bytes` returns succeeds and changes nothing of the transaction but its signature. Its bytes read
  -- back as a signature that `VerifySignature` of the same wallet accepts for the same bytes.
  pub sign_tx-SignedBy :
      (w : Wallet B) (secret pubkey : Slice) (tx_bytes : ByteArray) (tx : Tx) (s : B.Signature)
      → wallet_bytes B w ≡ ok (secret, pubkey)
      → sign B w tx_bytes ≡ ok s
      → (tx' : Tx) × (sign_tx B (encode secret) (encode pubkey) tx_bytes tx ≡ ok tx')
        × SignedBy w tx_bytes tx tx'
  unfolding sign_tx sign verify_signature
  sign_tx-SignedBy w secret pubkey tx_bytes tx s split signs =
      let halves : (secret_of w, pubkey_of w) ≡ (secret, pubkey) =
        ok_injective (sym (wallet_bytes_lem w) ∙ split) in
      let bytes : All (λ b. b < 256) (pubkey_of w) × All (λ b. b < 256) (secret_of w) =
        All-take _ 128 (B.to_bytes w.account) (B.to_bytes-All w.account) in
      let signed : Tx = record tx { signature = B.signature_to_bytes s } in
      (
        signed,
        rw
            (
              sym (ap (λ p. p.0) halves),
              sym (ap (λ p. p.1) halves),
              decode-encode (secret_of w) bytes.1,
              decode-encode (pubkey_of w) bytes.0,
              secret_to_wallet_lem w,
              signs,
            )
            refl,
        record {
          signature = s;
          stored = refl;
          readable = written_lem s;
          verified = λ key. B.verify_lem w.account (create_message tx_bytes) s signs;
        },
      )

  read_signatures-written :
      (txs : List Tx) (sigs : List B.Signature)
      → map (λ tx. tx.signature) txs ≡ map B.signature_to_bytes sigs
      → read_signatures B txs ≡ ok sigs
  unfolding read_signatures
  read_signatures-written [] [] e = refl
  read_signatures-written [] (sig ∷ sigs) e = cc
  read_signatures-written (tx ∷ txs) [] e = cc
  read_signatures-written (tx ∷ txs) (sig ∷ sigs) e =
      let h : tx.signature ≡ B.signature_to_bytes sig = cc in
      let t : map (λ tx. tx.signature) txs ≡ map B.signature_to_bytes sigs = cc in
      rw (h, written_lem sig, read_signatures-written txs sigs t) refl

  -- Transactions whose signatures were written by the library are aggregated without an error, each
  -- signature once and in order.
  pub aggregate_signatures_written :
      (txs : List Tx) (sigs : List B.Signature)
      → map (λ tx. tx.signature) txs ≡ map B.signature_to_bytes sigs
      → aggregate_signatures B txs ≡ ok (B.aggregate_signatures sigs)
  unfolding aggregate_signatures
  aggregate_signatures_written txs sigs e = rw (read_signatures-written txs sigs e) refl
