-- ===== src/Bazooka.antt =====
-- core/bazooka.go and core/merkleProof.go: the calls of the contracts. The contracts and the ethereum
-- client are not part of the repository's code; they are parameters.
pub mod Codec
use reddit_commander.Prelude.{
  ℕ, zero, suc, ℤ, int64_of, Option, none, some, Bool, true, false, List, [], ◌∷◌, map, drop,
  length, ltb, Outcome, ok, err, panic, bind, or_panic, no_match, tx_pending, ◌==◌, if◌then◌else◌,
}
use reddit_commander.Constants.{tx_transfer_type, tx_create_2_transfer, tx_mass_migrations}
use reddit_commander.Bytes.{Str, Slice, ByteArray}
use reddit_commander.State.{UserState, hash_to_byte_array}
use reddit_commander.Account.{Account}
use reddit_commander.Tx.{Tx}

-- rollupclient.TypesUserState.
pub record AbiState : Type 0 where
  pub pubkey_index : ℤ
  pub token_type : ℤ
  pub balance : ℤ
  pub nonce : ℤ

-- rollupclient.TypesStateMerkleProof.
pub record AbiProof : Type 0 where
  pub state : AbiState
  pub witness : List ByteArray

-- The transfer as the contracts encode it.
pub record AbiTransfer : Type 0 where
  pub tx_type : ℤ
  pub from_index : ℤ
  pub to_index : ℤ
  pub amount : ℤ
  pub fee : ℤ
  pub nonce : ℤ

-- What the contracts' validation of a transaction returns.
pub record Updates : Type 0 where
  pub new_sender : Slice
  pub new_receiver : Slice
  pub result : ℕ

-- The view functions of the contracts, by their Go bindings.
pub record Frontend : Type 0 where
  pub process_transfer : ByteArray → Slice → ℤ → AbiProof → AbiProof → Outcome ByteArray
  pub validate_and_apply_transfer : Slice → Slice → Slice → Outcome Updates
  pub validate_and_apply_create_2_transfer : Slice → Slice → Outcome Updates
  pub validate_and_apply_mass_migration : Slice → Slice → Outcome Updates
  pub compress_transfer : List Slice → Outcome Slice
  pub compress_create_2_transfer : List Slice → Outcome Slice
  pub compress_mass_migration : List Slice → Outcome Slice
  pub encode_transfer : AbiTransfer → Outcome Slice
  pub decode_transfer : Slice → Outcome AbiTransfer
  pub encode : AbiState → Outcome Slice
  pub decode_state : Slice → Outcome AbiState

-- The ethereum client and the unpacking of a call's data by the contract's ABI.
pub record EthClient : Type 0 where
  -- TransactionByHash: the transaction's data, and whether it is pending
  pub transaction_by_hash : ByteArray → Outcome (Slice × Bool)
  -- Inputs.UnpackIntoMap for submitBatch: the entry `_txs`, where it is there with that type
  pub unpack_submit_batch : Slice → Outcome (Option (List Slice))

-- `type StateMerkleProof struct`.
pub record StateMerkleProof : Type 0 where
  pub state : UserState
  pub siblings : List UserState

-- `type AccountMerkleProof struct`.
pub record AccountMerkleProof : Type 0 where
  pub path : Str
  pub public_key : Str
  pub siblings : List Account

-- `FetchBatchInputData`: data of less than four bytes and a missing entry panic.
unfoldable pub fetch_batch_input_data : EthClient → ByteArray → Outcome (List Slice)
fetch_batch_input_data C tx_hash = bind (C.transaction_by_hash tx_hash) λ found.
    if found.1
    then err tx_pending
    else if ltb (length found.0) 4
    then panic
    else bind (C.unpack_submit_batch (drop 4 found.0)) or_panic

-- `GetSiblings` hashes as 32-byte arrays; one that is unreadable panics.
unfoldable pub witnesses : List UserState → Outcome (List ByteArray)
witnesses [] = ok []
witnesses (s ∷ siblings) =
    bind (hash_to_byte_array s) λ w. bind (witnesses siblings) λ ws. ok (w ∷ ws)

module _ (F : Frontend) where
  -- `DecodeState`, the values in the order of its results: id, balance, nonce, token.
  unfoldable pub decode_state : Slice → Outcome (ℤ × ℤ × ℤ × ℤ)
  decode_state state_bytes =
      bind (F.decode_state state_bytes)
        λ state. ok (state.pubkey_index, state.balance, state.nonce, state.token_type)

  unfoldable pub encode_state : ℕ → ℕ → ℕ → ℕ → Outcome Slice
  encode_state id balance nonce token = F.encode (record {
    pubkey_index = int64_of id;
    token_type = int64_of token;
    balance = int64_of balance;
    nonce = int64_of nonce;
  })

  -- `EncodeTransferTx`: the struct is filled by position.
  unfoldable pub encode_transfer_tx : ℤ → ℤ → ℤ → ℤ → ℤ → ℤ → Outcome Slice
  encode_transfer_tx from to token nonce amount tx_type = F.encode_transfer (record {
    tx_type = tx_type;
    from_index = from;
    to_index = to;
    amount = token;
    fee = nonce;
    nonce = amount;
  })

  -- `DecodeTransferTx`, in the order of its results: from, to, nonce, type, amount, fee.
  unfoldable pub decode_transfer_tx : Slice → Outcome (ℤ × ℤ × ℤ × ℤ × ℤ × ℤ)
  decode_transfer_tx tx_bytes =
      bind (F.decode_transfer tx_bytes)
        λ tx. ok (tx.from_index, tx.to_index, tx.nonce, tx.tx_type, tx.amount, tx.fee)

  -- `ToABIAccount`.
  unfoldable pub to_abi_account : UserState → Outcome AbiState
  unfolding decode_state
  to_abi_account s = bind (decode_state s.state_data) λ (id, balance, nonce, token).
      ok (record { pubkey_index = id; token_type = token; balance = balance; nonce = nonce })

  -- `ToABIVersion`.
  unfoldable pub to_abi_version : StateMerkleProof → Outcome AbiProof
  unfolding witnesses to_abi_account
  to_abi_version m =
      bind (witnesses m.siblings)
        λ ws. bind (to_abi_account m.state) λ state. ok (record { state = state; witness = ws })

  unfoldable pub process_transfer_tx :
      ByteArray → Tx → StateMerkleProof → StateMerkleProof → Outcome ByteArray
  unfolding to_abi_version
  process_transfer_tx balance_tree_root tx from_merkle_proof to_merkle_proof =
      bind (to_abi_version from_merkle_proof) λ from_mp.
        bind (to_abi_version to_merkle_proof) λ to_mp.
          F.process_transfer balance_tree_root tx.tx_data from_mp.state.token_type from_mp to_mp

  unfoldable pub process_tx :
      ByteArray → Tx → StateMerkleProof → StateMerkleProof → Outcome ByteArray
  unfolding process_transfer_tx
  process_tx balance_tree_root tx from_merkle_proof to_merkle_proof =
      if tx.tx_type == tx_transfer_type
      then process_transfer_tx balance_tree_root tx from_merkle_proof to_merkle_proof
      else err no_match

  -- A result other than 0 is not an error: what was given is returned.
  unfoldable pub apply_transfer_tx : Slice → Slice → Tx → Outcome (Slice × Slice)
  apply_transfer_tx sender receiver tx =
      bind (F.validate_and_apply_transfer sender receiver tx.tx_data) λ updates.
        if updates.result == 0
        then ok (updates.new_sender, updates.new_receiver)
        else ok (sender, receiver)

  unfoldable pub apply_create_2_transfer_tx : Slice → Slice → Tx → Outcome (Slice × Slice)
  apply_create_2_transfer_tx sender receiver tx =
      bind (F.validate_and_apply_create_2_transfer sender tx.tx_data) λ updates.
        if updates.result == 0
        then ok (updates.new_sender, updates.new_receiver)
        else ok (sender, receiver)

  -- The receiver that is returned on success is the blank result variable.
  unfoldable pub apply_mass_migration_tx : Slice → Slice → Tx → Outcome (Slice × Slice)
  apply_mass_migration_tx sender receiver tx =
      bind (F.validate_and_apply_mass_migration sender tx.tx_data) λ updates.
        if updates.result == 0 then ok (updates.new_sender, []) else ok (sender, receiver)

  unfoldable pub apply_tx : Slice → Slice → Tx → Outcome (Slice × Slice)
  unfolding apply_transfer_tx apply_create_2_transfer_tx apply_mass_migration_tx
  apply_tx sender receiver tx =
      if tx.tx_type == tx_transfer_type
      then apply_transfer_tx sender receiver tx
      else if tx.tx_type == tx_create_2_transfer
      then apply_create_2_transfer_tx sender receiver tx
      else if tx.tx_type == tx_mass_migrations
      then apply_mass_migration_tx sender receiver tx
      else err no_match

  -- `CompressTxs`: the first transaction's type is that of all, and without one it panics.
  unfoldable pub compress_txs : List Tx → Outcome Slice
  compress_txs [] = panic
  compress_txs (tx ∷ txs) =
      let payload : List Slice = map (λ t. t.tx_data) (tx ∷ txs) in
      if tx.tx_type == tx_transfer_type
      then F.compress_transfer payload
      else if tx.tx_type == tx_create_2_transfer
      then F.compress_create_2_transfer payload
      else if tx.tx_type == tx_mass_migrations
      then F.compress_mass_migration payload
      else err no_match
