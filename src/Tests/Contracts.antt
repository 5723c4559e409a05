-- ===== src/Tests/Contracts.antt =====
-- The theorems on the contracts' codecs and on the genesis file, at concrete values.
use reddit_commander.Prelude.{pos, ◌≡◌, refl, arith, List, [], ◌∷◌, length, All, ◌^◌, ok, codes}
use reddit_commander.Bytes.{Slice}
use reddit_commander.Bytes.Hex.{decode}
use reddit_commander.NodePath.{solidity_path_to_node_path, uint_to_string, format_bits}
use reddit_commander.State.{UserState, new_user_state}
use reddit_commander.Account.{Account, new_account, populate_hash, encode_pubkey}
use reddit_commander.Bazooka.{encode_state, decode_state, encode_transfer_tx, decode_transfer_tx}
use reddit_commander.Bazooka.Codec.{
  spread, decode_state-encode_state, decode_transfer_tx-encode_transfer_tx,
}
use reddit_commander.Genesis.{
  Genesis, GenUserState, validate, is_coordinator, gen_account, gen_accounts, genesis_rows,
}
use reddit_commander.Genesis.Filled.{IsValid, validate-IsValid, length-genesis_rows}
use reddit_commander.Genesis.Keys.{IsReadable, gen_accounts-IsReadable}
use reddit_commander.Account.Start.{Fits}
use reddit_commander.Tests.Keys.{numbering}
use reddit_commander.Tests.Fixtures.{toy}
use reddit_commander.Tests.Stores.{contracts, states-Roundtrip, transfers-Roundtrip}

decode_state-encode_state_example :
    (bz : Slice) × (encode_state contracts 3 (2 ^ 63) 7 2 ≡ ok bz)
    × (decode_state contracts bz ≡ ok (pos 3, spread (2 ^ 63), pos 7, pos 2))
decode_state-encode_state_example =
    decode_state-encode_state contracts 3 (2 ^ 63) 7 2 states-Roundtrip (omega arith) (omega arith)
      (omega arith) (omega arith)

decode_transfer_tx-encode_transfer_tx_example :
    (bz : Slice) × (encode_transfer_tx contracts (pos 3) (pos 4) (pos 2) (pos 7) (pos 100) (pos 1)
      ≡ ok bz)
    × (decode_transfer_tx contracts bz ≡ ok (pos 3, pos 4, pos 100, pos 1, pos 2, pos 7))
decode_transfer_tx-encode_transfer_tx_example =
    decode_transfer_tx-encode_transfer_tx contracts (pos 3) (pos 4) (pos 2) (pos 7) (pos 100)
      (pos 1) transfers-Roundtrip

abbrev coordinator : GenUserState
coordinator = record { account_id = 0; nonce = 0; balance = 0; token_type = 0; public_key = [] }

abbrev member : GenUserState
member = record {
  account_id = 0;
  nonce = 0;
  balance = 9;
  token_type = 0;
  public_key = codes "0a1b";
}

abbrev pub small_genesis : Genesis
small_genesis = record {
  start_eth_block = 3;
  max_tree_depth = 2;
  max_deposit_sub_tree_height = 1;
  stake_amount = 32;
  genesis_accounts = coordinator ∷ member ∷ [];
}

validate-IsValid_example : IsValid small_genesis
unfolding validate is_coordinator
validate-IsValid_example = validate-IsValid small_genesis refl

abbrev pub Made : Type 0
Made = List UserState × List Account

-- What is made for the two accounts, and for the whole file.
made_accounts :
    (made : Made) × (gen_accounts toy contracts (λ bz. ok bz) 2 (coordinator ∷ member ∷ [])
      ≡ ok made)
unfolding gen_accounts gen_account solidity_path_to_node_path uint_to_string format_bits
    encode_state new_account populate_hash encode_pubkey new_user_state decode
made_accounts = (_, refl)

pub made_rows :
    (made : Made) × (genesis_rows toy contracts (λ bz. ok bz) small_genesis ≡ ok made)
    × Fits numbering made.1
unfolding genesis_rows gen_accounts gen_account solidity_path_to_node_path uint_to_string
    format_bits encode_state new_account populate_hash encode_pubkey new_user_state decode
made_rows = (_, refl, refl)

gen_accounts-IsReadable_example : All (λ acc. IsReadable acc.public_key) (coordinator ∷ member ∷ [])
gen_accounts-IsReadable_example =
    gen_accounts-IsReadable toy contracts (λ bz. ok bz) 2 (coordinator ∷ member ∷ [])
      made_accounts.0 made_accounts.1

length-genesis_rows_example : (length made_rows.0.0 ≡ 2 ^ 2) × (length made_rows.0.1 ≡ 2 ^ 2)
unfolding validate is_coordinator
length-genesis_rows_example =
    length-genesis_rows toy contracts (λ bz. ok bz) small_genesis made_rows.0 refl made_rows.1
