-- ===== src/Services.antt =====
-- listener/syncer.go, aggregator/aggregator.go and rest/api.go: the three services on one database,
-- one step after the other, whichever statements fail.
pub mod Loops
pub mod Ordered
pub mod Refined
use reddit_commander.Prelude.{ℕ, ◌≡◌, refl, ap, sym, subst, ◌∙◌, List, [], All}
use reddit_commander.Bytes.{Str, Slice}
use reddit_commander.Merkle.{Crypto}
use reddit_commander.Gorm.Keeps.{Preorder, Keeps, Keeps-bind}
use reddit_commander.State.Rows.{Rows}
use reddit_commander.Tx.{Tx, pop_txs}
use reddit_commander.Database.{Tables, Db, on_txs}
use reddit_commander.Deposit.Closed.{Closed}
use reddit_commander.Deposit.Settled.{
  settled, SameSettled, KeepsShape, SameSettled-Closed, Shaped, KeepsShape-Closed,
}
use reddit_commander.Aggregator.{pick_batch}
use reddit_commander.Listener.{Chain, Event}
use reddit_commander.Listener.Syncer.{process_header}
use reddit_commander.Listener.Closed.{process_header-Keeps}
use reddit_commander.Rest.{Json, Request, tx_receiver_handler}
use reddit_commander.Rest.States.{tx_receiver_handler-mempool}
use reddit_commander.Deposit.Calls.{OverDb, OverDb-Preorder}

module _ (K : Crypto) (G : Tables) where
  -- One step of one service. What the chain answers, what a user posts and which statements fail is
  -- open.
  pub data Step (db db' : Db G) : Type 1 where
    header :
        (C : Chain) (abis : List (List Event)) (number : ℕ)
        → db' ≡ (process_header K C G abis number db).1
        → Step db db'
    round : (txs_per_batch : ℕ) → db' ≡ (pick_batch G txs_per_batch db).1 → Step db db'
    post :
        (J : Json) (rlp_encode : Tx → Slice) (uuid : Str) (now : ℕ) (request : Request)
        → db'
          ≡ (tx_receiver_handler J G K rlp_encode uuid now request
              (record { db = db; written = [] })).1.db
        → Step db db'

  -- Any number of steps.
  pub data Run (db : Db G) : Db G → Type 1 where
    stop : Run db db
    after : {mid last : Db G} → Run db mid → Step mid last → Run db last

  -- The mempool's services leave the state tree alone.
  abbrev SameStates : Db G → Db G → Type 0
  SameStates db db' = db'.states ≡ db.states

  SameStates-Preorder : Preorder SameStates
  SameStates-Preorder = record { stay = λ db. refl; trans = λ a b c h k. k ∙ h }

  pick_batch-states : (n : ℕ) → Keeps SameStates (pick_batch G n)
  unfolding pick_batch
  pick_batch-states n =
      Keeps-bind SameStates SameStates-Preorder {B = Unit {0}} (on_txs G (pop_txs G.tx_table n)) _
        (λ db. refl) λ popped db. refl

  same-Closed :
      (R : Rows → Rows → Type 0) (closed : Closed K G.state_table R) (db db' : Db G)
      → db'.states ≡ db.states
      → OverDb K G R closed db db'
  same-Closed R closed db db' e =
      subst (λ (s : G.state_table.Store). R (G.state_table.rows db.states) (G.state_table.rows s))
        (sym e) ((OverDb-Preorder K G R closed).stay db)

  -- Every step moves the state tree along every closed relation.
  Step-Closed :
      (R : Rows → Rows → Type 0) (closed : Closed K G.state_table R) (db db' : Db G)
      → Step db db'
      → OverDb K G R closed db db'
  Step-Closed R closed db db' (header C abis number e) =
      subst (OverDb K G R closed db) (sym e) (process_header-Keeps K C G R closed abis number db)
  Step-Closed R closed db db' (round n e) =
      same-Closed R closed db db' (ap (λ d. d.states) e ∙ pick_batch-states n db)
  Step-Closed R closed db db' (post J rlp_encode uuid now request e) = same-Closed R closed db db' (
      ap (λ d. d.states) e
      ∙ ap (λ d. d.states)
          (tx_receiver_handler-mempool J G K rlp_encode uuid now request
            (record { db = db; written = [] })))

  Run-Closed :
      (R : Rows → Rows → Type 0) (closed : Closed K G.state_table R) (db : Db G) {db' : Db G}
      → Run db db'
      → OverDb K G R closed db db'
  Run-Closed R closed db stop = (OverDb-Preorder K G R closed).stay db
  Run-Closed R closed db (after {mid} {last} run step) =
      (OverDb-Preorder K G R closed).trans db mid last (Run-Closed R closed db run)
        (Step-Closed R closed mid last step)

  -- Whatever the chain answers, whatever users post, in whatever order the services take their
  -- steps, and whichever statements fail: the nodes of the state tree stay the same ones, with their
  -- ids, paths, types and status; only their data and hashes change. Deposits come and go beside them.
  pub Run-settled :
      (db : Db G) {db' : Db G}
      → Run db db'
      → settled (G.state_table.rows db'.states) ≡ settled (G.state_table.rows db.states)
  Run-settled db run = Run-Closed SameSettled (SameSettled-Closed K G.state_table) db run

  -- Where every row's level is the length of its path, its path no longer than the depth and a deposit
  -- without a path, that is so after any such run.
  pub Run-Shaped :
      (d : ℕ) (db : Db G) {db' : Db G}
      → Run db db'
      → All (Shaped d) (G.state_table.rows db.states)
      → All (Shaped d) (G.state_table.rows db'.states)
  Run-Shaped d db run = Run-Closed (KeepsShape d) (KeepsShape-Closed K G.state_table d) db run
