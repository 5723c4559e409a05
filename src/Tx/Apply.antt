-- ===== src/Tx/Apply.antt =====
-- core/tx.go: `Apply`, which writes both accounts of a transaction in one database transaction, and
-- the proofs for an account.
use reddit_commander.Prelude.{ℕ, Outcome, ok, err, panic}
use reddit_commander.Constants.{tx_status_processed}
use reddit_commander.Bytes.{Slice}
use reddit_commander.Merkle.{Crypto}
use reddit_commander.Gorm.{Exec, attempt, pure, ◌>>=◌, ◌>>◌}
use reddit_commander.State.{UserState, update_state, get_siblings}
use reddit_commander.Account.{get_account_leaf_by_id, get_account_siblings}
use reddit_commander.Tx.{Tx, update_status}
use reddit_commander.Database.{Tables, Db, on_states, on_accounts, on_txs, get_state_by_index}
use reddit_commander.Bazooka.{StateMerkleProof, AccountMerkleProof}

module _ (K : Crypto) (G : Tables) where
  abbrev pub with_data : Slice → UserState → UserState
  with_data payload acc = record acc { state_data = payload }

  -- A query on another connection, which sees what was committed before the transaction.
  abbrev pub committed {ℓ} : {A : Type ℓ} → G.state_table.Store → Exec (Db G) A → Exec (Db G) A
  committed before m db =
      let (r, db') = m (record db { states = G.state_table.undone before db.states }) in
      (r, record db' { states = G.state_table.undone db.states db'.states })

  -- `mysqlTx.Rollback()`.
  abbrev pub roll_back : G.state_table.Store → Db G → Db G
  roll_back before db = record db { states = G.state_table.undone before db.states }

  -- `if err != nil { mysqlTx.Rollback(); return err }`.
  abbrev pub or_roll_back {ℓ} :
      {A : Type ℓ} → G.state_table.Store → Outcome A × Db G → Outcome A × Db G
  or_roll_back before (ok a, db) = (ok a, db)
  or_roll_back before (err e, db) = (err e, roll_back before db)
  or_roll_back before (panic, db) = (panic, db)

  -- The statements of `Apply` inside the transaction; after a failed `Begin` the first query has its
  -- error. The status is written on another connection, and its error is not looked at.
  unfoldable pub apply_body : Tx → Slice → Slice → G.state_table.Store → Exec (Db G) (Unit {0})
  apply_body tx updated_from updated_to before = do
    from_acc ← λ db.
        or_roll_back before ((on_states G G.state_table.begin >> get_state_by_index K G tx.from) db)
    λ db.
        or_roll_back before
          (on_states G (update_state K G.state_table (with_data updated_from from_acc)) db)
    to_acc ← λ db. or_roll_back before (committed before (get_state_by_index K G tx.to) db)
    λ db.
        or_roll_back before
          (on_states G (update_state K G.state_table (with_data updated_to to_acc)) db)
    marked ← attempt (on_txs G (update_status G.tx_table tx_status_processed tx))
    pure tt

  -- How `Apply` ends: it commits, and does not look at the commit's error; after a panic it rolls back
  -- and, recovered, returns no error.
  unfoldable pub apply_end : G.state_table.Store → Outcome (Unit {0}) → Exec (Db G) (Unit {0})
  apply_end before (ok done) db =
      (do ended ← attempt (on_states G (G.state_table.commit before)); pure tt) db
  apply_end before (err e) db = (err e, db)
  apply_end before panic db = (ok tt, roll_back before db)

  -- `Apply` once the connection is open.
  unfoldable pub apply : Tx → Slice → Slice → Exec (Db G) (Unit {0})
  unfolding apply_body apply_end
  apply tx updated_from updated_to db =
      let (r, db') = apply_body tx updated_from updated_to db.states db in apply_end db.states r db'

  -- `ApplySingleTx`.
  unfoldable pub apply_single_tx : UserState → Slice → Exec (Db G) (Unit {0})
  apply_single_tx account updated_data =
      on_states G (update_state K G.state_table (with_data updated_data account))

  -- `FetchMPWithID`.
  unfoldable pub fetch_mp_with_id : ℕ → Exec (Db G) StateMerkleProof
  fetch_mp_with_id id = do
    leaf ← get_state_by_index K G id
    siblings ← on_states G (get_siblings K G.state_table leaf.path)
    pure (record { state = leaf; siblings = siblings })

  -- `FetchAccountProofWithID`.
  unfoldable pub fetch_account_proof_with_id :
      (Slice → Outcome Slice) → ℕ → Exec (Db G) AccountMerkleProof
  fetch_account_proof_with_id pack_bytes id = do
    leaf ← on_accounts G (get_account_leaf_by_id K pack_bytes G.account_table id)
    siblings ← on_accounts G (get_account_siblings K pack_bytes G.account_table leaf.path)
    pure (record { path = leaf.path; public_key = leaf.public_key; siblings = siblings })
