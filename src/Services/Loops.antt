-- ===== src/Services/Loops.antt =====
-- listener/syncer.go, aggregator/aggregator.go and cmd/start.go: the loops of the services from their
-- start to their stop, and the channel between the poller and the processor of headers.
use reddit_commander.Prelude.{
  ◌≡◌, ℕ, Bool, true, false, Option, none, some, List, [], ◌∷◌, ◌++◌, Outcome, ok, err, panic,
}
use reddit_commander.Bytes.{Str, Slice}
use reddit_commander.Merkle.{Crypto}
use reddit_commander.Tx.{Tx}
use reddit_commander.Database.{Tables, Db}
use reddit_commander.Aggregator.{pick_batch}
use reddit_commander.Listener.{Chain, Log, Event}
use reddit_commander.Listener.Syncer.{header_logs, process_events}
use reddit_commander.Rest.{Json, Request, tx_receiver_handler}

-- Where `startPolling` is: in its select, at the send of a header, which waits for a receiver, or
-- returned.
pub data Poller : Type 0 where
  waiting : Poller
  sending : ℕ → Poller
  returned : Poller

-- The goroutine of `processEvents` for the header with this number.
pub record Spawned : Type 0 where
  pub chain : Chain
  pub abis : List (List Event)
  pub logs : List Log
  pub number : ℕ

-- A panic ends the program.
abbrev pub survives {ℓ} : {A : Type ℓ} → Outcome A → Bool
survives (ok a) = true
survives (err e) = true
survives panic = false

module _ (K : Crypto) (G : Tables) where
  -- The services and the database.
  pub record Running : Type 0 where
    pub db : Db G
    pub alive : Bool
    pub poller : Poller
    -- `startHeaderProcess` and `startAggregating` are in their loops
    pub processing : Bool
    -- a header that was taken off the channel and waits for the wait group
    pub received : Option ℕ
    -- the goroutine that the wait group counts
    pub spawned : Option Spawned
    pub aggregating : Bool
    pub cancelled : Bool
    -- the headers that were fetched and those that were handled, in order
    pub fetched : List ℕ
    pub handled : List ℕ

  -- `OnStart` of the syncer, where there is no subscription, and of the aggregator.
  unfoldable pub on_start : Db G → Running
  on_start db = record {
    db = db;
    alive = true;
    poller = waiting;
    processing = true;
    received = none;
    spawned = none;
    aggregating = true;
    cancelled = false;
    fetched = [];
    handled = [];
  }

  -- `OnStop` of both cancels the contexts. It closes the connection too, after which statements fail;
  -- here every statement may fail at any time.
  unfoldable pub on_stop : Running → Running
  on_stop s = record s { cancelled = true }

  -- `startPolling`: a tick fetches a header, or fails to; after the cancellation the loop may return.
  pub data PollMove (s t : Running) : Type 0 where
    tick :
        (number : ℕ)
        → s.poller ≡ waiting
        → t ≡ record s { poller = sending number; fetched = s.fetched ++ number ∷ [] }
        → PollMove s t
    miss : s.poller ≡ waiting → t ≡ s → PollMove s t
    return_poller :
        s.cancelled ≡ true → s.poller ≡ waiting → t ≡ record s { poller = returned } → PollMove s t

  -- After `processHeader`: it has started a goroutine, or is done with the header.
  abbrev pub after_look :
      Chain → List (List Event) → ℕ → Outcome (Option (List Log)) → Running → Running
  after_look C abis number (ok none) s = record s { handled = s.handled ++ number ∷ [] }
  after_look C abis number (ok (some logs)) s = record s {
    spawned = some (record { chain = C; abis = abis; logs = logs; number = number });
  }
  after_look C abis number (err e) s = record s { handled = s.handled ++ number ∷ [] }
  after_look C abis number panic s = record s { alive = false; handled = s.handled ++ number ∷ [] }

  -- `processHeader` for the received header.
  unfoldable pub looked : Chain → List (List Event) → ℕ → Running → Running
  looked C abis number s =
      let (r, db) = header_logs K C G number s.db in
      after_look C abis number r (record s { db = db; received = none })

  -- The goroutine of `processEvents`, to its end.
  unfoldable pub finished : Spawned → Running → Running
  finished work s =
      let (r, db) = process_events K work.chain G work.abis work.logs work.number s.db in
      record s {
        db = db;
        alive = survives r;
        spawned = none;
        handled = s.handled ++ work.number ∷ [];
      }

  -- `startHeaderProcess`: in its select it takes a header off the channel, which frees the poller, or
  -- returns after the cancellation; with a header it waits until no goroutine is left and calls
  -- `processHeader`.
  pub data HeaderMove (s t : Running) : Type 0 where
    receive :
        (number : ℕ)
        → s.poller ≡ sending number
        → s.processing ≡ true
        → s.received ≡ none
        → t ≡ record s { poller = waiting; received = some number }
        → HeaderMove s t
    look :
        (C : Chain) (abis : List (List Event)) (number : ℕ)
        → s.received ≡ some number
        → s.spawned ≡ none
        → t ≡ looked C abis number s
        → HeaderMove s t
    finish : (work : Spawned) → s.spawned ≡ some work → t ≡ finished work s → HeaderMove s t
    return_processor :
        s.cancelled ≡ true
        → s.received ≡ none
        → t ≡ record s { processing = false }
        → HeaderMove s t

  -- `startAggregating`.
  pub data AggregateMove (s t : Running) : Type 0 where
    round :
        (txs_per_batch : ℕ)
        → s.aggregating ≡ true
        → t ≡ record s {
          db = (pick_batch G txs_per_batch s.db).1;
          alive = survives (pick_batch G txs_per_batch s.db).0;
        }
        → AggregateMove s t
    return_aggregator :
        s.cancelled ≡ true → t ≡ record s { aggregating = false } → AggregateMove s t

  -- A move of the program, which runs.
  pub data Move (s t : Running) : Type 1 where
    poll : s.alive ≡ true → PollMove s t → Move s t
    head : s.alive ≡ true → HeaderMove s t → Move s t
    aggregate : s.alive ≡ true → AggregateMove s t → Move s t
    post :
        (J : Json) (rlp_encode : Tx → Slice) (uuid : Str) (now : ℕ) (request : Request)
        → s.alive ≡ true
        → t ≡ record s {
          db =
              (tx_receiver_handler J G K rlp_encode uuid now request
                (record { db = s.db; written = [] })).1.db;
        }
        → Move s t
    stop : t ≡ on_stop s → Move s t

  pub data Moves (s : Running) : Running → Type 1 where
    here : Moves s s
    next : {mid last : Running} → Moves s mid → Move mid last → Moves s last

  abbrev pub in_hand : Poller → List ℕ
  in_hand waiting = []
  in_hand (sending number) = number ∷ []
  in_hand returned = []

  abbrev pub in_turn : Option ℕ → List ℕ
  in_turn none = []
  in_turn (some number) = number ∷ []

  abbrev pub in_work : Option Spawned → List ℕ
  in_work none = []
  in_work (some work) = work.number ∷ []

  -- The headers on their way: one whose events are being handled, one that was received and waits for
  -- them, and one that waits for its receiver.
  abbrev pub on_the_way : Option Spawned → Option ℕ → Poller → List ℕ
  on_the_way spawned received poller = in_work spawned ++ (in_turn received ++ in_hand poller)

  -- The headers that were fetched are those that were handled, in the same order, and then those on
  -- their way.
  abbrev pub InOrder : Running → Type 0
  InOrder s = s.fetched ≡ s.handled ++ on_the_way s.spawned s.received s.poller
