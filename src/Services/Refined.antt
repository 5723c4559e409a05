-- ===== src/Services/Refined.antt =====
-- listener/syncer.go, aggregator/aggregator.go and rest/api.go: the loops, in which the other services
-- work on the database while a header is on its way, against whole steps of one service after the other.
use reddit_commander.Prelude.{
  ◌≡◌, refl, ap, sym, ◌∙◌, subst, ℕ, Bool, true, false, Option, none, some, List, [], Outcome, ok,
  err, panic, leb, ◌%◌, ◌^◌, if◌then◌else◌,
}
use reddit_commander.Merkle.{Crypto}
use reddit_commander.Gorm.{Exec, attempt, pure, continue, lift}
use reddit_commander.Gorm.Keeps.{Keeps, Keeps-continue, Commutes, Commutes-bind}
use reddit_commander.Params.{get_sync_status}
use reddit_commander.Tx.{pop_txs}
use reddit_commander.Database.{Tables, Db, on_syncs}
use reddit_commander.Aggregator.{pick_batch}
use reddit_commander.Listener.{Chain, Log, Event}
use reddit_commander.Listener.Syncer.{header_logs, with_logs, process_header}
use reddit_commander.Rest.{tx_receiver_handler}
use reddit_commander.Rest.States.{tx_receiver_handler-mempool, tx_receiver_handler-blind}
use reddit_commander.Services.{Step, Run}
use reddit_commander.Services.Loops.{
  Spawned, Running, on_start, on_stop, PollMove, after_look, looked, finished, HeaderMove,
  AggregateMove, Move, Moves,
}

module _ (K : Crypto) (G : Tables) where
  abbrev with_syncs : G.sync_table.Store → Db G → Db G
  with_syncs z db = record db { syncs = z }

  abbrev with_txs : G.tx_table.Store → Db G → Db G
  with_txs x db = record db { txs = x }

  -- `processHeader` reads the progress and nothing else before it starts a goroutine.
  module _ (C : Chain) where
    or_none-Commutes {ℓ} :
        (x : G.tx_table.Store) {A : Type ℓ} (r : Outcome A)
        (f : A → Exec (Db G) (Option (List Log)))
        → ((a : A) → Commutes (with_txs x) (f a))
        → Commutes (with_txs x) (elim r as (λ r. Exec (Db G) (Option (List Log))) [
          | ok a ↦ f a
          | err e ↦ pure none
          | panic ↦ lift panic
        ])
    or_none-Commutes x (ok a) f h s = h a s
    or_none-Commutes x (err e) f h s = refl
    or_none-Commutes x panic f h s = refl

    if-Commutes :
        (x : G.tx_table.Store) (b : Bool) (m n : Exec (Db G) (Option (List Log)))
        → Commutes (with_txs x) m
        → Commutes (with_txs x) n
        → Commutes (with_txs x) (if b then m else n)
    if-Commutes x true m n h k = h
    if-Commutes x false m n h k = k

    header_logs-Commutes :
        (x : G.tx_table.Store) (number : ℕ) → Commutes (with_txs x) (header_logs K C G number)
    unfolding header_logs
    header_logs-Commutes x number =
        Commutes-bind (with_txs x) {B = Option (List Log)}
          (attempt (on_syncs G (get_sync_status G.sync_table))) _ (λ s. refl)
          λ status. or_none-Commutes x status _ λ sync_status.
            if-Commutes x (leb (number % 2 ^ 64) sync_status.last_eth_block_recorded) _ _
              (λ s. refl)
              (or_none-Commutes x (C.filter_logs sync_status.last_eth_block_recorded number) _
                λ logs s. refl)

    -- Nothing changes after the query of the progress.
    Same : Db G → Db G → Type 0
    Same db db' = db' ≡ db

    or_none-Same {ℓ} :
        {A : Type ℓ} (r : Outcome A) (f : A → Exec (Db G) (Option (List Log)))
        → ((a : A) → Keeps Same (f a))
        → Keeps Same (elim r as (λ r. Exec (Db G) (Option (List Log))) [
          | ok a ↦ f a
          | err e ↦ pure none
          | panic ↦ lift panic
        ])
    unfolding Same
    or_none-Same (ok a) f h s = h a s
    or_none-Same (err e) f h s = refl
    or_none-Same panic f h s = refl

    if-Same :
        (b : Bool) (m n : Exec (Db G) (Option (List Log)))
        → Keeps Same m
        → Keeps Same n
        → Keeps Same (if b then m else n)
    if-Same true m n h k = h
    if-Same false m n h k = k

    header_logs-db :
        (number : ℕ) (db : Db G)
        → (header_logs K C G number db).1 ≡ with_syncs (get_sync_status G.sync_table db.syncs).1 db
    unfolding header_logs Same
    header_logs-db number db =
        Keeps-continue Same (record { stay = λ s. refl; trans = λ a b c h k. k ∙ h })
          {B = Option (List Log)} (attempt (on_syncs G (get_sync_status G.sync_table)) db).0 _
          (λ status. or_none-Same status _ λ sync_status.
            if-Same (leb (number % 2 ^ 64) sync_status.last_eth_block_recorded) _ _ (λ s. refl)
              (or_none-Same (C.filter_logs sync_status.last_eth_block_recorded number) _
                λ logs s. refl))
          (with_syncs (get_sync_status G.sync_table db.syncs).1 db)

  -- The database after the loops' moves, against one after whole steps. While a goroutine handles the
  -- events of a header, its step is still to come: without it the progress is the one before the
  -- header was looked at, and to look at it then would give the goroutine's logs.
  Tracks : Db G → Option Spawned → Db G → Type 1
  Tracks start none db = Run K G start db
  Tracks start (some work) db =
      (z : G.sync_table.Store) × Run K G start (with_syncs z db)
      × (header_logs K work.chain G work.number (with_syncs z db) ≡ (ok (some work.logs), db))

  -- A step that works on the mempool alone, and does not see the progress, may come before the header's.
  Tracks-mempool :
      (start : Db G) (f : Db G → Db G)
      → ((db : Db G) → Step K G db (f db))
      → ((db : Db G) → f db ≡ with_txs (f db).txs db)
      → ((z : G.sync_table.Store) (db : Db G) → f (with_syncs z db) ≡ with_syncs z (f db))
      → (w : Option Spawned) (db : Db G) → Tracks start w db
      → Tracks start w (f db)
  unfolding Tracks
  Tracks-mempool start f step only blind none db run = Run.after run (step db)
  Tracks-mempool start f step only blind (some work) db (z, run, look) = (
    z,
    subst (Run K G start) (blind z db) (Run.after run (step (with_syncs z db))),
    ap (λ d. header_logs K work.chain G work.number (with_syncs z d)) (only db)
        ∙ header_logs-Commutes work.chain (f db).txs work.number (with_syncs z db)
        ∙ ap (λ p. (p.0, with_txs (f db).txs p.1)) look
        ∙ ap (λ d. (ok (some work.logs), d)) (sym (only db)),
  )

  -- A round of the aggregator.
  round_db : ℕ → Db G → Db G
  round_db n db = (pick_batch G n db).1

  lifted {ℓ} :
      {A : Type ℓ} (r : Outcome A) (f : A → Outcome (Unit {0})) (db : Db G)
      → (continue r (λ a. lift (f a)) db).1 ≡ db
  lifted (ok a) f db = refl
  lifted (err e) f db = refl
  lifted panic f db = refl

  pick_batch-db : (n : ℕ) (db : Db G) → round_db n db ≡ with_txs (pop_txs G.tx_table n db.txs).1 db
  unfolding round_db pick_batch
  pick_batch-db n db =
      lifted (pop_txs G.tx_table n db.txs).0 _ (with_txs (pop_txs G.tx_table n db.txs).1 db)

  pick_batch-only : (n : ℕ) (db : Db G) → round_db n db ≡ with_txs (round_db n db).txs db
  pick_batch-only n db =
      pick_batch-db n db ∙ ap (λ (d : Db G). with_txs d.txs db) (sym (pick_batch-db n db))

  pick_batch-blind :
      (n : ℕ) (z : G.sync_table.Store) (db : Db G)
      → round_db n (with_syncs z db) ≡ with_syncs z (round_db n db)
  pick_batch-blind n z db =
      pick_batch-db n (with_syncs z db) ∙ ap (with_syncs z) (sym (pick_batch-db n db))

  -- `processHeader` as a whole, by what its look at the progress gives.
  header_whole :
      (C : Chain) (abis : List (List Event)) (number : ℕ) (db : Db G)
      (r : Outcome (Option (List Log))) (db' : Db G)
      → header_logs K C G number db ≡ (r, db')
      → (process_header K C G abis number db).1 ≡ (continue r (with_logs K C G abis number) db').1
  unfolding process_header
  header_whole C abis number db r db' e =
      ap
        (λ (p : Outcome (Option (List Log)) × Db G).
          (continue p.0 (with_logs K C G abis number) p.1).1)
        e

  Tracks-look :
      (start : Db G) (C : Chain) (abis : List (List Event)) (number : ℕ) (s : Running K G)
      (r : Outcome (Option (List Log))) (db' : Db G)
      → Run K G start s.db
      → header_logs K C G number s.db ≡ (r, db')
      → with_syncs s.db.syncs db' ≡ s.db
      → s.spawned ≡ none
      → let t = after_look K G C abis number r (record s { db = db'; received = none }) in
        Tracks start t.spawned t.db
  unfolding Tracks
  Tracks-look start C abis number s (ok none) db' run look back idle =
      rw idle (
        Run.after run
          (Step.header C abis number (sym (header_whole C abis number s.db _ db' look))))
  Tracks-look start C abis number s (ok (some logs)) db' run look back idle =
      (s.db.syncs, subst (Run K G start) (sym back) run, ap (header_logs K C G number) back ∙ look)
  Tracks-look start C abis number s (err e) db' run look back idle =
      rw idle (
        Run.after run
          (Step.header C abis number (sym (header_whole C abis number s.db _ db' look))))
  Tracks-look start C abis number s panic db' run look back idle =
      rw idle (
        Run.after run
          (Step.header C abis number (sym (header_whole C abis number s.db _ db' look))))

  Tracks-finish :
      (start : Db G) (work : Spawned) (s : Running K G)
      → Tracks start (some work) s.db
      → Tracks start none (finished K G work s).db
  unfolding Tracks finished
  Tracks-finish start work s (z, run, look) = Run.after run (
      Step.header work.chain work.abis work.number
        (sym (header_whole work.chain work.abis work.number (with_syncs z s.db) _ s.db look)))

  Move-Tracks :
      (start : Db G) (s t : Running K G)
      → Move K G s t
      → Tracks start s.spawned s.db
      → Tracks start t.spawned t.db
  unfolding on_stop round_db looked finished Tracks
  Move-Tracks start s t (Move.poll alive (PollMove.tick n e e')) h =
      subst (λ (r : Running K G). Tracks start r.spawned r.db) (sym e') h
  Move-Tracks start s t (Move.poll alive (PollMove.miss e e')) h =
      subst (λ (r : Running K G). Tracks start r.spawned r.db) (sym e') h
  Move-Tracks start s t (Move.poll alive (PollMove.return_poller c e e')) h =
      subst (λ (r : Running K G). Tracks start r.spawned r.db) (sym e') h
  Move-Tracks start s t (Move.head alive (HeaderMove.receive n e on free e')) h =
      subst (λ (r : Running K G). Tracks start r.spawned r.db) (sym e') h
  Move-Tracks start s t (Move.head alive (HeaderMove.look C abis n e idle e')) h =
      subst (λ (r : Running K G). Tracks start r.spawned r.db) (sym e')
        (Tracks-look start C abis n s (header_logs K C G n s.db).0 (header_logs K C G n s.db).1
          (subst (λ w. Tracks start w s.db) idle h) refl
          (ap (with_syncs s.db.syncs) (header_logs-db C n s.db)) idle)
  Move-Tracks start s t (Move.head alive (HeaderMove.finish work e e')) h =
      subst (λ (r : Running K G). Tracks start r.spawned r.db) (sym e')
        (Tracks-finish start work s (subst (λ w. Tracks start w s.db) e h))
  Move-Tracks start s t (Move.head alive (HeaderMove.return_processor c free e')) h =
      subst (λ (r : Running K G). Tracks start r.spawned r.db) (sym e') h
  Move-Tracks start s t (Move.aggregate alive (AggregateMove.round n on e)) h =
      subst (λ (r : Running K G). Tracks start r.spawned r.db) (sym e)
        (Tracks-mempool start (round_db n) (λ db. Step.round n refl) (pick_batch-only n)
          (pick_batch-blind n) s.spawned s.db h)
  Move-Tracks start s t (Move.aggregate alive (AggregateMove.return_aggregator c e)) h =
      subst (λ (r : Running K G). Tracks start r.spawned r.db) (sym e) h
  Move-Tracks start s t (Move.post json rlp_encode uuid now request alive e) h =
      subst (λ (r : Running K G). Tracks start r.spawned r.db) (sym e)
        (Tracks-mempool start
          (λ db.
            (tx_receiver_handler json G K rlp_encode uuid now request
              (record { db = db; written = [] })).1.db)
          (λ db. Step.post json rlp_encode uuid now request refl)
          (λ db.
            tx_receiver_handler-mempool json G K rlp_encode uuid now request
              (record { db = db; written = [] }))
          (λ z db.
            ap (λ p. p.1.db)
              (tx_receiver_handler-blind json G z K rlp_encode uuid now request
                (record { db = db; written = [] })))
          s.spawned s.db h)
  Move-Tracks start s t (Move.stop e) h =
      subst (λ (r : Running K G). Tracks start r.spawned r.db) (sym e) h

  Moves-Tracks :
      (start : Db G) (s t : Running K G)
      → Moves K G s t
      → Tracks start s.spawned s.db
      → Tracks start t.spawned t.db
  Moves-Tracks start s t Moves.here h = h
  Moves-Tracks start s t (Moves.next {mid} moves move) h =
      Move-Tracks start mid t move (Moves-Tracks start s mid moves h)

  -- Whatever the loops do from the start on, until and after a stop, and whatever the aggregator and
  -- users do to the mempool between a look at a header and the end of its events: when no goroutine
  -- handles events, the database is one that whole steps of one service after the other lead to, a
  -- header with all its events being one of them.
  pub on_start-Run :
      (db : Db G) (t : Running K G)
      → Moves K G (on_start K G db) t
      → t.spawned ≡ none
      → Run K G db t.db
  unfolding on_start Tracks
  on_start-Run db t moves idle =
      subst (λ w. Tracks db w t.db) idle (Moves-Tracks db (on_start K G db) t moves Run.stop)
