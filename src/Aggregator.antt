-- ===== src/Aggregator.antt =====
-- aggregator/aggregator.go: the aggregator's round and the aggregation of signatures.
pub mod Round
use reddit_commander.Prelude.{
  ℕ, Option, none, some, List, [], ◌∷◌, length, replicate, Outcome, Error, ok, err, panic, bind,
}
use reddit_commander.Bytes.{Slice, ByteArray}
use reddit_commander.Gorm.{Exec, attempt, pure, lift, continue, ◌>>=◌, ◌>>◌}
use reddit_commander.Wallet.{Bls, bytes_to_signature}
use reddit_commander.Tx.{Tx, Popped, pop_txs}
use reddit_commander.Database.{Tables, Db, on_txs}

-- `type Commitment struct`.
pub record Commitment : Type 0 where
  pub txs : List Tx
  pub updated_root : ByteArray
  pub batch_type : ℕ
  pub aggregated_signature : Slice

module _ (B : Bls) where
  -- The loop of `aggregateSignatures`.
  unfoldable pub read_signatures : List Tx → Outcome (List B.Signature)
  unfolding bytes_to_signature
  read_signatures [] = ok []
  read_signatures (tx ∷ txs) =
      bind (bytes_to_signature B tx.signature)
        λ sig. bind (read_signatures txs) λ sigs. ok (sig ∷ sigs)

  unfoldable pub aggregate_signatures : List Tx → Outcome B.Signature
  unfolding read_signatures
  aggregate_signatures txs =
      bind (read_signatures txs) (λ signatures. ok (B.aggregate_signatures signatures))

-- `ProcessTx` of the aggregator returns its blank results.
unfoldable pub process_tx : List Tx → Outcome (List Commitment)
process_tx txs = ok []

-- `SubmitBatch` of core/bazooka.go does nothing.
unfoldable pub submit_batch : List Commitment → Outcome (Unit {0})
submit_batch commitments = ok tt

-- The error of `ProcessTx` is printed; that of `SubmitBatch` is not looked at.
unfoldable pub process_and_submit_batch : List Tx → Outcome (Unit {0})
unfolding process_tx submit_batch
process_and_submit_batch txs = elim (process_tx txs) [
  | ok commitments ↦ elim (submit_batch commitments) [
    | ok a ↦ ok tt
    | err e ↦ ok tt
    | panic ↦ panic
  ]
  | err e ↦ ok tt
  | panic ↦ panic
]

-- `pickBatch`: what was popped is processed even after an error.
unfoldable pub pick_batch : (G : Tables) → ℕ → Exec (Db G) (Unit {0})
unfolding process_and_submit_batch
pick_batch G txs_per_batch = do
  popped ← on_txs G (pop_txs G.tx_table txs_per_batch)
  lift (process_and_submit_batch popped.txs)
