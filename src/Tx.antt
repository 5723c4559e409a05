-- ===== src/Tx.antt =====
-- core/tx.go: transactions and the mempool, the table of transactions.
pub mod Pop
pub mod Apply
pub mod Leaves
pub mod Applied
use reddit_commander.Prelude.{
  ℕ, Bool, true, false, ◌&&◌, ◌||◌, Option, none, some, List, [], ◌∷◌, ◌++◌, map, Outcome, Error,
  ok, err, panic, ltb, ◌==◌, list_eq, if◌then◌else◌, failure_of,
}
use reddit_commander.Constants.{tx_status_pending, tx_status_processing, tx_transfer_type}
use reddit_commander.Bytes.{Str, Slice, ByteArray}
use reddit_commander.Merkle.{Crypto}
use reddit_commander.Gorm.{Exec, Table, attempt, count, pure, ◌>>=◌}

-- `type Tx struct`, with the columns of DBModel that the code reads.
pub record Tx : Type 0 where
  pub id : Str
  pub created_at : ℕ
  pub to : ℕ
  pub from : ℕ
  pub tx_data : Slice
  pub signature : Slice
  pub tx_hash : Str
  pub status : ℕ
  pub tx_type : ℕ

-- `NewTx`.
unfoldable pub new_tx : ℕ → ℕ → ℕ → Slice → Slice → Tx
new_tx from to tx_type sig message = record {
  id = [];
  created_at = 0;
  to = to;
  from = from;
  tx_data = message;
  signature = sig;
  tx_hash = [];
  status = 0;
  tx_type = tx_type;
}

unfoldable pub get_sign_bytes : Tx → Slice
get_sign_bytes tx = tx.tx_data

module _ (K : Crypto) (rlp_encode : Tx → Slice) where
  -- `rlpHash`; what the encoder writes before an error is hashed.
  unfoldable pub rlp_hash : Tx → ByteArray
  rlp_hash x = K.keccak256 (rlp_encode x)

  unfoldable pub assign_hash : Tx → Tx
  unfolding rlp_hash
  assign_hash t =
      if list_eq t.tx_hash [] then record t { tx_hash = K.hash_string (rlp_hash t) } else t

  unfoldable pub new_pending_tx : ℕ → ℕ → ℕ → Slice → Slice → Tx
  unfolding new_tx assign_hash
  new_pending_tx from to tx_type sig message =
      assign_hash (record (new_tx from to tx_type sig message) { status = tx_status_pending })

-- `ConcatTxs`.
unfoldable pub concat_txs : List Slice → Slice
concat_txs [] = []
concat_txs (tx ∷ txs) = tx ++ concat_txs txs

-- What `PopTxs` returns, which may be transactions together with an error.
pub record Popped : Type 0 where
  pub txs : List Tx
  pub failure : Option Error

-- `id IN (…)`.
abbrev pub is_one_of : List Str → Str → Bool
is_one_of [] id = false
is_one_of (x ∷ xs) id = list_eq id x || is_one_of xs id

-- The condition `&Tx{Status: …, Type: …}`, which has no test for a blank field.
abbrev pub is_pending : ℕ → Tx → Bool
is_pending tx_type row = row.status == tx_status_pending && (tx_type == 0 || row.tx_type == tx_type)

abbrev pub mark : ℕ → Tx → Tx
mark status row = record row { status = status }

abbrev pub type_or_zero : Outcome ℕ → ℕ
type_or_zero (ok n) = n
type_or_zero (err e) = 0
type_or_zero panic = 0

module _ (T : Table Tx) where
  -- `InsertTx`: the id and the time are filled in on the way, by `BeforeCreate` and by gorm.
  unfoldable pub insert_tx : Str → ℕ → Tx → Exec T.Store (Unit {0})
  insert_tx uuid now t = T.insert (record t { id = uuid; created_at = now } ∷ [])

  unfoldable pub get_count_per_tx_type : ℕ → Exec T.Store ℕ
  get_count_per_tx_type tx_type =
      count T (λ row. row.tx_type == tx_type && row.status == tx_status_pending)

  -- The loop of `FetchTxType` over the types left.
  unfoldable pub fetch_tx_type_loop : List ℕ → ℕ → ℕ → Exec T.Store ℕ
  fetch_tx_type_loop [] max_tx_type max_count = pure max_tx_type
  fetch_tx_type_loop (tx_type ∷ tx_types) max_tx_type max_count = do
    found ← get_count_per_tx_type tx_type
    (if ltb max_count found
        then fetch_tx_type_loop tx_types tx_type found
        else fetch_tx_type_loop tx_types max_tx_type max_count)

  unfoldable pub fetch_tx_type : Exec T.Store ℕ
  unfolding fetch_tx_type_loop
  fetch_tx_type = fetch_tx_type_loop (tx_transfer_type ∷ []) 0 0

  -- `UpdateStatus`: the condition on the id is left out where the id is blank.
  unfoldable pub update_status : ℕ → Tx → Exec T.Store (Unit {0})
  update_status status tx = T.update (λ row. list_eq tx.id [] || list_eq row.id tx.id) (mark status)

  -- The end of `PopTxs`: an error of the count is seen only here, and then nothing is committed.
  unfoldable pub pop_commit : T.Store → Option Error → List Tx → Exec T.Store Popped
  pop_commit before (some e) pending_txs s =
      (ok (record { txs = []; failure = some e }), T.undone before s)
  pop_commit before none pending_txs s =
      (do
        committed ← attempt (T.commit before)
        pure (record { txs = pending_txs; failure = failure_of committed }))
        s

  -- The update of the status; its errors are not looked at.
  unfoldable pub pop_mark : T.Store → Option Error → Outcome (List Tx) → Exec T.Store Popped
  unfolding pop_commit
  pop_mark before failed (err e) s = (ok (record { txs = []; failure = some e }), T.undone before s)
  pop_mark before failed panic s = (panic, T.undone before s)
  pop_mark before failed (ok pending_txs) s =
      (do
        errs ← attempt (
            T.update (λ row. is_one_of (map (λ tx. tx.id) pending_txs) row.id)
              (mark tx_status_processing))
        pop_commit before failed pending_txs)
        s

  unfoldable pub pop_begun : ℕ → Outcome ℕ → Outcome (Unit {0}) → Exec T.Store Popped
  unfolding pop_mark
  pop_begun txs_per_batch fetched (err e) = pure (record { txs = []; failure = some e })
  pop_begun txs_per_batch fetched panic = λ s. (panic, s)
  pop_begun txs_per_batch fetched (ok began) = λ before.
      (do
        found ←
            attempt (
              T.find_ordered txs_per_batch (λ tx. tx.created_at)
                (is_pending (type_or_zero fetched)))
        pop_mark before (failure_of fetched) found)
        before

  unfoldable pub pop_txs : ℕ → Exec T.Store Popped
  unfolding pop_begun
  pop_txs txs_per_batch = do
    fetched ← attempt fetch_tx_type
    began ← attempt T.begin
    pop_begun txs_per_batch fetched began
