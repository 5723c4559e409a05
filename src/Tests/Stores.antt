-- ===== src/Tests/Stores.antt =====
-- Tables in memory, and contracts that encode by listing their fields.
use reddit_commander.Prelude.{
  ℕ, ℤ, pos, negsuc, ◌≡◌, refl, List, [], ◌∷◌, none, Outcome, ok, err, call_failed, codes,
}
use reddit_commander.Bytes.{Slice}
use reddit_commander.Gorm.Memory.{Mem, memory, reliable}
use reddit_commander.State.{UserState}
use reddit_commander.Account.{Account}
use reddit_commander.Params.{Params, SyncStatus}
use reddit_commander.Tx.{Tx}
use reddit_commander.Batch.{Batch, Token}
use reddit_commander.Database.{Tables, Db}
use reddit_commander.Bazooka.{Frontend, AbiState, AbiTransfer, Updates}
use reddit_commander.Bazooka.Codec.{word, StatesRoundtrip, TransfersRoundtrip}
use reddit_commander.Listener.{Chain, NewBatch}

abbrev pub stored : {Row : Type 0} → List Row → Mem Row
stored rows = record { held = rows; script = [] }

-- No statement fails.
abbrev pub quiet_tables : Tables
quiet_tables = record {
  state_table = reliable UserState;
  account_table = reliable Account;
  params_table = reliable Params;
  sync_table = reliable SyncStatus;
  tx_table = reliable Tx;
  batch_table = reliable Batch;
  token_table = reliable Token;
}

-- Statements on the states fail as the script says.
abbrev pub scripted_tables : Tables
scripted_tables = record quiet_tables { state_table = memory UserState }

abbrev pub transfer_tx : Tx
transfer_tx = record {
  id = codes "a";
  created_at = 7;
  to = 1;
  from = 0;
  tx_data = 1 ∷ 2 ∷ [];
  signature = [];
  tx_hash = codes "0x1";
  status = 100;
  tx_type = 1;
}

abbrev pub later_tx : Tx
later_tx = record transfer_tx { id = codes "b"; created_at = 9 }

abbrev pub some_params : Params
some_params = record {
  stake_amount = 32;
  max_depth = 2;
  max_deposit_sub_tree_height = 1;
  finalisation_time = 40320;
}

abbrev pub some_sync : SyncStatus
some_sync = record { id = codes "s"; last_eth_block_recorded = 5; last_batch_recorded = 0 }

abbrev pub some_db : Db quiet_tables
some_db = record {
  states = stored [];
  accounts = stored [];
  params = stored (some_params ∷ []);
  syncs = stored (some_sync ∷ []);
  txs = stored (later_tx ∷ transfer_tx ∷ []);
  batches = stored [];
  tokens = stored [];
}

abbrev size : ℤ → ℕ
size (pos n) = n
size (negsuc n) = n

abbrev spell : ℤ → Slice → Slice
spell z rest = size (word z) ∷ rest

abbrev read_state : Slice → Outcome AbiState
read_state (a ∷ b ∷ c ∷ d ∷ []) =
    ok (record { pubkey_index = pos a; token_type = pos b; balance = pos c; nonce = pos d })
read_state _ = err call_failed

abbrev spell_state : AbiState → Slice
spell_state s = spell s.pubkey_index (spell s.token_type (spell s.balance (spell s.nonce [])))

abbrev read_transfer : Slice → Outcome AbiTransfer
read_transfer (a ∷ b ∷ c ∷ d ∷ e ∷ f ∷ []) = ok (record {
  tx_type = pos a;
  from_index = pos b;
  to_index = pos c;
  amount = pos d;
  fee = pos e;
  nonce = pos f;
})
read_transfer _ = err call_failed

abbrev spell_transfer : AbiTransfer → Slice
spell_transfer t =
    spell t.tx_type
      (spell t.from_index (spell t.to_index (spell t.amount (spell t.fee (spell t.nonce [])))))

abbrev pub rejected : Updates
rejected = record { new_sender = []; new_receiver = []; result = 3 }

abbrev pub contracts : Frontend
contracts = record {
  process_transfer = λ root payload token from to. ok root;
  validate_and_apply_transfer = λ sender receiver payload. ok rejected;
  validate_and_apply_create_2_transfer = λ sender payload. ok rejected;
  validate_and_apply_mass_migration = λ sender payload. ok rejected;
  compress_transfer = λ payload. ok [];
  compress_create_2_transfer = λ payload. ok [];
  compress_mass_migration = λ payload. ok [];
  encode_transfer = λ tx. ok (spell_transfer tx);
  decode_transfer = read_transfer;
  encode = λ st. ok (spell_state st);
  decode_state = read_state;
}

abbrev pub first_batch : NewBatch
first_batch = record { committer = codes "0xc0"; updated_root = []; index = 4; batch_type = 0 }

abbrev pub chain : Chain
chain = record {
  client = record {
    transaction_by_hash = λ h. err call_failed;
    unpack_submit_batch = λ payload. ok none;
  };
  unpack_pubkey = λ v_log. err call_failed;
  unpack_queued = λ v_log. err call_failed;
  unpack_ready = λ v_log. err call_failed;
  unpack_finalised = λ v_log. err call_failed;
  unpack_batch = λ v_log. ok first_batch;
  unpack_token = λ v_log. err call_failed;
  filter_logs = λ from to. ok [];
  pack_bytes = λ bz. ok bz;
  no_table = λ batch. err call_failed;
}

read_back : (z : ℤ) → pos (size (word z)) ≡ word z
read_back (pos n) = refl
read_back (negsuc n) = refl

pub states-Roundtrip : StatesRoundtrip contracts
states-Roundtrip st = (
  spell_state st,
  refl,
  rw (read_back st.pubkey_index, read_back st.token_type, read_back st.balance, read_back st.nonce)
      refl,
)

pub transfers-Roundtrip : TransfersRoundtrip contracts
transfers-Roundtrip t = (
  spell_transfer t,
  refl,
  rw
      (
        read_back t.tx_type,
        read_back t.from_index,
        read_back t.to_index,
        read_back t.amount,
        read_back t.fee,
        read_back t.nonce,
      )
      refl,
)
