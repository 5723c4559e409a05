-- ===== src/Rest.antt =====
-- rest/api.go and rest/utils.go: the handlers of the REST server. What encoding/json reads and
-- writes is a parameter, and so are the bodies of requests.
pub mod Received
pub mod Taken
pub mod States
use reddit_commander.Prelude.{
  ℕ, ◌≡◌, Option, none, some, Bool, true, false, List, [], ◌∷◌, ◌++◌, Outcome, Error, ok, err,
  panic, codes, failure_of,
}
use reddit_commander.Constants.{tx_transfer_type}
use reddit_commander.Bytes.{Str, Slice}
use reddit_commander.Merkle.{Crypto}
use reddit_commander.Gorm.{Exec, attempt, lift, pure, ◌>>=◌, ◌>>◌}
use reddit_commander.State.{UserState, blank_state}
use reddit_commander.Tx.{Tx, new_pending_tx, insert_tx}
use reddit_commander.Database.{Tables, Db, on_txs}

-- `type TxReceiver struct`.
pub record TxReceiver : Type 0 where
  pub from : ℕ
  pub to : ℕ
  pub message : Slice
  pub signature : Slice

-- `type ErrorResponse struct`.
pub record ErrorResponse : Type 0 where
  pub code : ℕ
  pub error : Str

-- What a handler does to the response, in order.
pub data Write : Type 0 where
  content_type_json : Write
  header : ℕ → Write
  body : Slice → Write

-- encoding/json and the texts of errors.
pub record Json : Type 0 where
  -- Unmarshal into a blank TxReceiver: what it holds afterwards, and the error
  pub unmarshal : Slice → TxReceiver × Option Error
  pub marshal_tx : Tx → Outcome Slice
  pub marshal_state : UserState → Outcome Slice
  pub marshal_error : ErrorResponse → Outcome Slice
  -- a struct of a number and a text can be written
  pub marshal_error_lem : (e : ErrorResponse) → (bz : Slice) × (marshal_error e ≡ ok bz)
  pub text_of : Error → Str

abbrev pub status_bad_request : ℕ
status_bad_request = 400

abbrev pub blank_receiver : TxReceiver
blank_receiver = record { from = 0; to = 0; message = []; signature = [] }

-- A request's body, as `ioutil.ReadAll` reads it.
abbrev pub Request : Type 0
Request = Outcome Slice

-- The database and the response that is being written.
pub record Served (G : Tables) : Type 0 where
  pub db : Db G
  pub written : List Write

module _ (J : Json) (G : Tables) where
  abbrev pub write : Write → Exec (Served G) (Unit {0})
  write w served = (ok tt, record served { written = served.written ++ w ∷ [] })

  abbrev pub on_db {ℓ} : {A : Type ℓ} → Exec (Db G) A → Exec (Served G) A
  on_db m served = let (r, db) = m served.db in (r, record served { db = db })

  -- `MustMarshallJSON`.
  unfoldable pub must_marshall_json : ErrorResponse → Outcome Slice
  must_marshall_json o = elim (J.marshal_error o) [ ok bz ↦ ok bz | err e ↦ panic | panic ↦ panic ]

  -- `WriteErrorResponse`: the code of the body is always 0.
  unfoldable pub write_error_response : ℕ → Str → Exec (Served G) (Unit {0})
  unfolding must_marshall_json
  write_error_response status error = do
    write content_type_json
    write (header status)
    bz ← lift (must_marshall_json (record { code = 0; error = error }))
    write (body bz)

  -- The end of `ReadRESTReq`.
  unfoldable pub unmarshalled : TxReceiver → Option Error → Exec (Served G) (TxReceiver × Bool)
  unmarshalled req none = pure (req, true)
  unmarshalled req (some e) = do
    write_error_response status_bad_request (codes "failed to decode JSON payload: " ++ J.text_of e)
    pure (req, false)

  -- `ReadRESTReq` for a TxReceiver: the request, as far as it was read, and whether it was read.
  unfoldable pub read_rest_req : Request → Exec (Served G) (TxReceiver × Bool)
  unfolding unmarshalled write_error_response
  read_rest_req (ok bz) = unmarshalled (J.unmarshal bz).0 (J.unmarshal bz).1
  read_rest_req (err e) = do
    write_error_response status_bad_request (J.text_of e)
    pure (blank_receiver, false)
  read_rest_req panic = lift panic

  -- An error response where a step failed; the handlers go on after it.
  unfoldable pub report : Option Error → Str → Exec (Served G) (Unit {0})
  unfolding write_error_response
  report none error = pure tt
  report (some e) error = write_error_response status_bad_request error

  abbrev bytes_or_none : Outcome Slice → Slice
  bytes_or_none (ok bz) = bz
  bytes_or_none (err e) = []
  bytes_or_none panic = []

  -- The end of the handlers: the value as JSON.
  unfoldable pub respond : Outcome Slice → Exec (Served G) (Unit {0})
  unfolding report
  respond output = do
    report (failure_of output) (codes "Unable to marshall account")
    write content_type_json
    write (body (bytes_or_none output))

  abbrev pub unread : Bool → Option Error
  unread true = none
  unread false = some Error.bad_number

  -- `TxReceiverHandler` after the request is read: it does not return after an error. The id and
  -- the time of the row are filled in before it is inserted.
  unfoldable pub receive_tx :
      Crypto → (Tx → Slice) → Str → ℕ → TxReceiver × Bool → Exec (Served G) (Unit {0})
  unfolding report respond
  receive_tx K rlp_encode uuid now (tx, read) = do
    report (unread read) (codes "Cannot read request")
    let user_tx = new_pending_tx K rlp_encode tx.from tx.to tx_transfer_type tx.signature tx.message
    inserted ← attempt (on_db (on_txs G (insert_tx G.tx_table uuid now user_tx)))
    report (failure_of inserted) (codes "Cannot read request")
    respond (J.marshal_tx (record user_tx { id = uuid; created_at = now }))

  -- `TxReceiverHandler`.
  unfoldable pub tx_receiver_handler :
      Crypto → (Tx → Slice) → Str → ℕ → Request → Exec (Served G) (Unit {0})
  unfolding read_rest_req receive_tx
  tx_receiver_handler K rlp_encode uuid now request = do
    read ← read_rest_req request
    receive_tx K rlp_encode uuid now read

  -- `GetTxTemplateForTxType`, which answers with a blank state.
  unfoldable pub get_tx_template_for_tx_type : Exec (Served G) (Unit {0})
  unfolding respond
  get_tx_template_for_tx_type = respond (J.marshal_state blank_state)

  -- `GetAccountHandler`: the number in the query is read, and not used.
  unfoldable pub get_account_handler : Outcome ℕ → Exec (Served G) (Unit {0})
  unfolding report respond
  get_account_handler id = do
    report (failure_of id) (codes "Invalid ID")
    respond (J.marshal_state blank_state)
