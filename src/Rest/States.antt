-- ===== src/Rest/States.antt =====
-- rest/api.go: the handler of a posted transaction changes nothing but the mempool, and does not see the
-- syncer's progress.
use reddit_commander.Prelude.{
  ℕ, ◌≡◌, refl, ap, ◌∙◌, Bool, Option, none, some, Outcome, ok, err, panic, Error, codes,
  failure_of,
}
use reddit_commander.Bytes.{Str, Slice}
use reddit_commander.Merkle.{Crypto}
use reddit_commander.Gorm.{Exec, lift, attempt, ◌>>=◌}
use reddit_commander.Gorm.Keeps.{Preorder, Keeps, Keeps-bind, Commutes, Commutes-bind}
use reddit_commander.Tx.{Tx, insert_tx}
use reddit_commander.Database.{Tables, Db, on_txs}
use reddit_commander.Rest.{
  TxReceiver, Json, Served, Request, on_db, unread, must_marshall_json, write_error_response,
  report, respond, unmarshalled, read_rest_req, receive_tx, tx_receiver_handler,
}

module _ (J : Json) (G : Tables) where
  abbrev pub SameServed : Served G → Served G → Type 0
  SameServed v v' = v'.db ≡ record v.db { txs = v'.db.txs }

  SameServed-Preorder : Preorder SameServed
  SameServed-Preorder = record {
    stay = λ v. refl;
    trans = λ a b c h k. k ∙ ap (λ (d : Db G). record d { txs = c.db.txs }) h;
  }

  Served-bind {ℓ κ} :
      {A : Type ℓ} {B : Type κ} (m : Exec (Served G) A) (f : A → Exec (Served G) B)
      → Keeps SameServed m
      → ((a : A) → Keeps SameServed (f a))
      → Keeps SameServed (m >>= f)
  Served-bind = Keeps-bind SameServed SameServed-Preorder

  write_error_response-mempool :
      (status : ℕ) (error : Str) → Keeps SameServed (write_error_response J G status error)
  unfolding write_error_response
  write_error_response-mempool status error v =
      Served-bind {B = Unit {0}} (lift (must_marshall_json J G _)) _ (λ v. refl) (λ bz v. refl) _

  report-mempool :
      (failed : Option Error) (error : Str) → Keeps SameServed (report J G failed error)
  unfolding report
  report-mempool none error = λ v. refl
  report-mempool (some e) error = write_error_response-mempool _ error

  unmarshalled-mempool :
      (req : TxReceiver) (failed : Option Error) → Keeps SameServed (unmarshalled J G req failed)
  unfolding unmarshalled
  unmarshalled-mempool req none = λ v. refl
  unmarshalled-mempool req (some e) =
      Served-bind {B = TxReceiver × Bool} (write_error_response J G _ _) _
        (write_error_response-mempool _ _) λ done v. refl

  read_rest_req-mempool : (request : Request) → Keeps SameServed (read_rest_req J G request)
  unfolding read_rest_req
  read_rest_req-mempool (ok bz) = unmarshalled-mempool (J.unmarshal bz).0 (J.unmarshal bz).1
  read_rest_req-mempool (err e) =
      Served-bind {B = TxReceiver × Bool} (write_error_response J G _ _) _
        (write_error_response-mempool _ _) λ done v. refl
  read_rest_req-mempool panic = λ v. refl

  respond-mempool : (output : Outcome Slice) → Keeps SameServed (respond J G output)
  unfolding respond
  respond-mempool output =
      Served-bind {B = Unit {0}} (report J G _ _) _ (report-mempool _ _) λ done v. refl

  receive_tx-mempool :
      (K : Crypto) (rlp_encode : Tx → Slice) (uuid : Str) (now : ℕ) (req : TxReceiver) (read : Bool)
      → Keeps SameServed (receive_tx J G K rlp_encode uuid now (req, read))
  unfolding receive_tx
  receive_tx-mempool K rlp_encode uuid now req read =
      Served-bind {B = Unit {0}} (report J G (unread J G read) (codes "Cannot read request")) _
        (report-mempool (unread J G read) (codes "Cannot read request"))
        λ told.
          Served-bind {B = Unit {0}}
            (attempt (on_db J G (on_txs G (insert_tx G.tx_table uuid now _)))) _ (λ v. refl)
            λ inserted.
              Served-bind {B = Unit {0}}
                (report J G (failure_of inserted) (codes "Cannot read request")) _
                (report-mempool (failure_of inserted) (codes "Cannot read request"))
                λ told. respond-mempool _

  pub tx_receiver_handler-mempool :
      (K : Crypto) (rlp_encode : Tx → Slice) (uuid : Str) (now : ℕ) (request : Request)
      → Keeps SameServed (tx_receiver_handler J G K rlp_encode uuid now request)
  unfolding tx_receiver_handler
  tx_receiver_handler-mempool K rlp_encode uuid now request =
      Served-bind {B = Unit {0}} (read_rest_req J G request) _ (read_rest_req-mempool request)
        λ read. receive_tx-mempool K rlp_encode uuid now read.0 read.1

module _ (J : Json) (G : Tables) (z : G.sync_table.Store) where
  -- The same response and database with another progress of the syncer.
  abbrev pub moved : Served G → Served G
  moved v = record v { db = record v.db { syncs = z } }

  Blind-bind {ℓ κ} :
      {A : Type ℓ} {B : Type κ} (m : Exec (Served G) A) (f : A → Exec (Served G) B)
      → Commutes moved m
      → ((a : A) → Commutes moved (f a))
      → Commutes moved (m >>= f)
  Blind-bind = Commutes-bind moved

  write_error_response-blind :
      (status : ℕ) (error : Str) → Commutes moved (write_error_response J G status error)
  unfolding write_error_response
  write_error_response-blind status error v =
      Blind-bind {B = Unit {0}} (lift (must_marshall_json J G _)) _ (λ v. refl) (λ bz v. refl) _

  report-blind : (failed : Option Error) (error : Str) → Commutes moved (report J G failed error)
  unfolding report
  report-blind none error = λ v. refl
  report-blind (some e) error = write_error_response-blind _ error

  unmarshalled-blind :
      (req : TxReceiver) (failed : Option Error) → Commutes moved (unmarshalled J G req failed)
  unfolding unmarshalled
  unmarshalled-blind req none = λ v. refl
  unmarshalled-blind req (some e) =
      Blind-bind {B = TxReceiver × Bool} (write_error_response J G _ _) _
        (write_error_response-blind _ _) λ done v. refl

  read_rest_req-blind : (request : Request) → Commutes moved (read_rest_req J G request)
  unfolding read_rest_req
  read_rest_req-blind (ok bz) = unmarshalled-blind (J.unmarshal bz).0 (J.unmarshal bz).1
  read_rest_req-blind (err e) =
      Blind-bind {B = TxReceiver × Bool} (write_error_response J G _ _) _
        (write_error_response-blind _ _) λ done v. refl
  read_rest_req-blind panic = λ v. refl

  respond-blind : (output : Outcome Slice) → Commutes moved (respond J G output)
  unfolding respond
  respond-blind output =
      Blind-bind {B = Unit {0}}
        (report J G (failure_of output) (codes "Unable to marshall account")) _
        (report-blind (failure_of output) (codes "Unable to marshall account")) λ done v. refl

  receive_tx-blind :
      (K : Crypto) (rlp_encode : Tx → Slice) (uuid : Str) (now : ℕ) (req : TxReceiver) (read : Bool)
      → Commutes moved (receive_tx J G K rlp_encode uuid now (req, read))
  unfolding receive_tx
  receive_tx-blind K rlp_encode uuid now req read =
      Blind-bind {B = Unit {0}} (report J G (unread J G read) (codes "Cannot read request")) _
        (report-blind (unread J G read) (codes "Cannot read request"))
        λ told.
          Blind-bind {B = Unit {0}}
            (attempt (on_db J G (on_txs G (insert_tx G.tx_table uuid now _)))) _ (λ v. refl)
            λ inserted.
              Blind-bind {B = Unit {0}}
                (report J G (failure_of inserted) (codes "Cannot read request")) _
                (report-blind (failure_of inserted) (codes "Cannot read request"))
                λ told. respond-blind _

  pub tx_receiver_handler-blind :
      (K : Crypto) (rlp_encode : Tx → Slice) (uuid : Str) (now : ℕ) (request : Request)
      → Commutes moved (tx_receiver_handler J G K rlp_encode uuid now request)
  unfolding tx_receiver_handler
  tx_receiver_handler-blind K rlp_encode uuid now request =
      Blind-bind {B = Unit {0}} (read_rest_req J G request) _ (read_rest_req-blind request)
        λ read. receive_tx-blind K rlp_encode uuid now read.0 read.1
