-- ===== src/Tests/Served.antt =====
-- The services on tables in memory: a posted transaction and the aggregator's next round.
use reddit_commander.Prelude.{
  ◌≡◌, refl, arith, List, [], ◌∷◌, ◌++◌, none, some, false, codes, ok, panic≢ok, sym,
}
use reddit_commander.Bytes.{Slice}
use reddit_commander.Constants.{tx_status_processing}
use reddit_commander.Gorm.{map_where, count}
use reddit_commander.Gorm.Memory.{Mem, reliable, reliable-IsQuiet}
use reddit_commander.Tx.{
  Tx, mark, pop_txs, pop_begun, pop_mark, pop_commit, fetch_tx_type, fetch_tx_type_loop,
  get_count_per_tx_type,
}
use reddit_commander.Tx.Pop.{by_id}
use reddit_commander.Database.{Db}
use reddit_commander.Deposit.Settled.{settled}
use reddit_commander.Aggregator.{pick_batch, process_and_submit_batch, process_tx, submit_batch}
use reddit_commander.Rest.{TxReceiver, Json, Write, Served}
use reddit_commander.Rest.Received.{posted}
use reddit_commander.Rest.Taken.{serve_round, serve_round-Taken}
use reddit_commander.Services.{Run, Step, Run-settled}
use reddit_commander.Services.Loops.{
  Poller, Running, on_start, on_stop, PollMove, Spawned, looked, finished, survives, AggregateMove,
  HeaderMove, Move, Moves, InOrder,
}
use reddit_commander.Services.Refined.{on_start-Run}
use reddit_commander.Services.Ordered.{Stuck, on_start-Moves, return_processor-Stuck}
use reddit_commander.Listener.Syncer.{header_logs, process_header}
use reddit_commander.Params.{get_sync_status}
use reddit_commander.Tests.Fixtures.{toy}
use reddit_commander.Tests.Stores.{quiet_tables, some_db, chain}
use reddit_commander.Tests.Deposits.{deposit_rows, deposit_db}

abbrev transfer : TxReceiver
transfer = record { from = 2; to = 5; message = 1 ∷ 1 ∷ []; signature = 8 ∷ [] }

-- A codec that reads one request.
abbrev json : Json
json = record {
  unmarshal = λ bz. (transfer, none);
  marshal_tx = λ tx. ok (tx.from ∷ tx.to ∷ []);
  marshal_state = λ st. ok [];
  marshal_error = λ e. ok (e.error);
  marshal_error_lem = λ e. (e.error, refl);
  text_of = λ e. codes "error";
}

abbrev spelled : Tx → Slice
spelled tx = tx.from ∷ tx.to ∷ tx.tx_data

abbrev asked : Served quiet_tables
asked = record { db = some_db; written = [] }

abbrev posted_row : Tx
posted_row = posted toy spelled (codes "c") 11 transfer

serve_round-Taken_example :
    (s : Mem Tx) × (writes : List Write) × (txs : List Tx) × (serve_round json quiet_tables toy
        spelled
        (codes "c")
        11
        (ok (3 ∷ []))
        4
        asked
      ≡ (ok tt, record { db = record some_db { txs = s }; written = writes }))
    × (s.held
        ≡ map_where (by_id (reliable Tx) txs) (mark tx_status_processing) some_db.txs.held
          ++ mark tx_status_processing posted_row ∷ [])
serve_round-Taken_example =
    serve_round-Taken json quiet_tables toy spelled (codes "c") 11 (ok (3 ∷ [])) (2 ∷ 5 ∷ []) 4
      asked (reliable-IsQuiet Tx) (λ h. panic≢ok (sym h)) refl (omega arith)

-- A header, then a round of the aggregator.
abbrev after_header : Db quiet_tables
after_header = (process_header toy chain quiet_tables [] 8 deposit_db).1

abbrev after_round : Db quiet_tables
after_round = (pick_batch quiet_tables 4 after_header).1

two_steps : Run toy quiet_tables deposit_db after_round
two_steps = Run.after (Run.after Run.stop (Step.header chain [] 8 refl)) (Step.round 4 refl)

Run-settled_example : settled after_round.states.held ≡ settled deposit_rows
Run-settled_example = Run-settled toy quiet_tables deposit_db two_steps

-- The loops fetch a header and handle it.
abbrev fetched_8 : Running toy quiet_tables
fetched_8 = record (on_start toy quiet_tables deposit_db) {
  poller = Poller.sending 8;
  fetched = 8 ∷ [];
}

-- The header is received, the next one fetched, and then the first one's events are handled.
abbrev received_8 : Running toy quiet_tables
received_8 = record fetched_8 { poller = Poller.waiting; received = some 8 }

abbrev fetched_9 : Running toy quiet_tables
fetched_9 = record received_8 { poller = Poller.sending 9; fetched = 8 ∷ 9 ∷ [] }

abbrev looked_8 : Running toy quiet_tables
looked_8 = looked toy quiet_tables chain [] 8 fetched_9

abbrev work_8 : Spawned
work_8 = record { chain = chain; abis = []; logs = []; number = 8 }

abbrev handled_8 : Running toy quiet_tables
handled_8 = finished toy quiet_tables work_8 looked_8

fetch_then_handle : Moves toy quiet_tables (on_start toy quiet_tables deposit_db) handled_8
unfolding on_start looked header_logs get_sync_status
fetch_then_handle =
    Moves.next
      (Moves.next
        (Moves.next
          (Moves.next (Moves.next Moves.here (Move.poll refl (PollMove.tick 8 refl refl)))
            (Move.head refl (HeaderMove.receive 8 refl refl refl refl)))
          (Move.poll refl (PollMove.tick 9 refl refl)))
        (Move.head refl (HeaderMove.look chain [] 8 refl refl refl)))
      (Move.head refl (HeaderMove.finish work_8 refl refl))

on_start-Moves_example : InOrder toy quiet_tables handled_8
on_start-Moves_example = on_start-Moves toy quiet_tables deposit_db handled_8 fetch_then_handle

-- The aggregator's round comes between the look at the header and the end of its events.
abbrev between : Running toy quiet_tables
between = record looked_8 {
  db = (pick_batch quiet_tables 4 looked_8.db).1;
  alive = survives (pick_batch quiet_tables 4 looked_8.db).0;
}

abbrev finished_8 : Running toy quiet_tables
finished_8 = finished toy quiet_tables work_8 between

round_between : Moves toy quiet_tables (on_start toy quiet_tables deposit_db) finished_8
unfolding on_start looked header_logs get_sync_status pick_batch pop_txs pop_begun pop_mark
    pop_commit fetch_tx_type fetch_tx_type_loop get_count_per_tx_type count process_and_submit_batch
    process_tx submit_batch
round_between =
    Moves.next
      (Moves.next
        (Moves.next
          (Moves.next
            (Moves.next (Moves.next Moves.here (Move.poll refl (PollMove.tick 8 refl refl)))
              (Move.head refl (HeaderMove.receive 8 refl refl refl refl)))
            (Move.poll refl (PollMove.tick 9 refl refl)))
          (Move.head refl (HeaderMove.look chain [] 8 refl refl refl)))
        (Move.aggregate refl (AggregateMove.round 4 refl refl)))
      (Move.head refl (HeaderMove.finish work_8 refl refl))

on_start-Run_example : Run toy quiet_tables deposit_db finished_8.db
unfolding finished
on_start-Run_example = on_start-Run toy quiet_tables deposit_db finished_8 round_between refl

-- A stop while the poller has a header to send.
abbrev stopped_8 : Running toy quiet_tables
stopped_8 = on_stop toy quiet_tables fetched_8

abbrev alone_8 : Running toy quiet_tables
alone_8 = record stopped_8 { processing = false }

return_processor-Stuck_example :
    Move toy quiet_tables stopped_8 alone_8 × Stuck toy quiet_tables 8 alone_8
unfolding on_start on_stop
return_processor-Stuck_example =
    return_processor-Stuck toy quiet_tables 8 stopped_8 alone_8 alone_8 refl refl refl refl refl
      Moves.here
