-- ===== src/Rest/Received.antt =====
-- rest/api.go: what the handler of a posted transaction leaves in the mempool and in the response.
use reddit_commander.Prelude.{
  ℕ, ◌≡◌, refl, ap, ◌∙◌, Option, none, some, List, [], ◌∷◌, ◌++◌, append_assoc, append-nil, ◌≢◌,
  Outcome, Error, ok, err, panic, codes, Bool, true, false,
}
use reddit_commander.Bytes.{Str, Slice}
use reddit_commander.Constants.{tx_status_pending, tx_transfer_type}
use reddit_commander.Merkle.{Crypto}
use reddit_commander.Gorm.{IsQuiet}
use reddit_commander.Tx.{Tx, new_tx, assign_hash, rlp_hash, new_pending_tx, insert_tx}
use reddit_commander.Database.{Tables}
use reddit_commander.Rest.{
  TxReceiver, Write, Json, Served, Request, blank_receiver, status_bad_request, must_marshall_json,
  write_error_response, unmarshalled, read_rest_req, report, respond, unread, receive_tx,
  tx_receiver_handler,
}

-- The row of a transfer that a user asks for.
abbrev pub posted : Crypto → (Tx → Slice) → Str → ℕ → TxReceiver → Tx
posted K rlp_encode uuid now req =
    let row : Tx = record {
      id = [];
      created_at = 0;
      to = req.to;
      from = req.from;
      tx_data = req.message;
      signature = req.signature;
      tx_hash = [];
      status = tx_status_pending;
      tx_type = tx_transfer_type;
    } in
    record row {
      id = uuid;
      created_at = now;
      tx_hash = K.hash_string (K.keccak256 (rlp_encode row));
    }

-- The writes of one error response.
abbrev pub error_writes : Json → Str → List Write
error_writes J error =
    Write.content_type_json
    ∷ Write.header status_bad_request
    ∷ Write.body (J.marshal_error_lem (record { code = 0; error = error })).0
    ∷ []

-- The error responses to a request that cannot be read.
abbrev refused : Json → Str → List Write
refused J error = error_writes J error ++ error_writes J (codes "Cannot read request")

abbrev complaints : Json → Option Error → List Write
complaints J none = []
complaints J (some e) = refused J (codes "failed to decode JSON payload: " ++ J.text_of e)

-- What is read of a request, and the error responses to it.
abbrev pub read_as : Json → Request → TxReceiver × List Write
read_as J (ok bz) = ((J.unmarshal bz).0, complaints J (J.unmarshal bz).1)
read_as J (err e) = (blank_receiver, refused J (J.text_of e))
read_as J panic = (blank_receiver, [])

module _ (J : Json) (G : Tables) where
  abbrev error_body : Str → Slice
  error_body error = (J.marshal_error_lem (record { code = 0; error = error })).0

  must_marshall_lem :
      (error : Str)
      → must_marshall_json J G (record { code = 0; error = error }) ≡ ok (error_body error)
  unfolding must_marshall_json
  must_marshall_lem error =
      rw (must_marshall_json, (J.marshal_error_lem (record { code = 0; error = error })).1) refl

  abbrev after : List Write → Served G → Outcome (Unit {0}) × Served G
  after ws v = (ok tt, record v { written = v.written ++ ws })

  write_error_lem :
      (error : Str) (v : Served G)
      → write_error_response J G status_bad_request error v ≡ after (error_writes J error) v
  unfolding write_error_response
  write_error_lem error v =
      let e : must_marshall_json J G (record { code = 0; error = error }) ≡ ok (error_body error) =
        must_marshall_lem error in
      rw e (simp append_assoc refl)

  respond_lem :
      (bz : Slice) (v : Served G)
      → respond J G (ok bz) v ≡ after (Write.content_type_json ∷ Write.body bz ∷ []) v
  unfolding respond report
  respond_lem bz v = simp append_assoc refl

  abbrev answer : Slice → List Write
  answer out = Write.content_type_json ∷ Write.body out ∷ []

  abbrev denial : Bool → List Write
  denial true = []
  denial false = error_writes J (codes "Cannot read request")

  report-unread :
      (read : Bool) (v : Served G)
      → report J G (unread J G read) (codes "Cannot read request") v ≡ after (denial read) v
  unfolding report
  report-unread true v = simp append-nil refl
  report-unread false v = write_error_lem (codes "Cannot read request") v

  -- Reading writes what is wrong with the request, and leaves the database alone.
  abbrev Reads :
      Outcome (TxReceiver × Bool) × Served G → Served G → TxReceiver → List Write → Type 0
  Reads result v req complaint =
      (read : Bool) × (writes : List Write) × (result
        ≡ (ok (req, read), record v { written = v.written ++ writes }))
      × (writes ++ denial read ≡ complaint)

  unmarshalled-Reads :
      (req : TxReceiver) (failed : Option Error) (v : Served G)
      → Reads (unmarshalled J G req failed v) v req (complaints J failed)
  unfolding unmarshalled
  unmarshalled-Reads req none v = (true, [], simp append-nil refl, refl)
  unmarshalled-Reads req (some e) v = (
    false,
    error_writes J (codes "failed to decode JSON payload: " ++ J.text_of e),
    rw (write_error_lem (codes "failed to decode JSON payload: " ++ J.text_of e) v) refl,
    refl,
  )

  read_rest_req-Reads :
      (request : Request) (v : Served G)
      → request ≢ panic
      → Reads (read_rest_req J G request v) v (read_as J request).0 (read_as J request).1
  unfolding read_rest_req
  read_rest_req-Reads (ok bz) v h = unmarshalled-Reads (J.unmarshal bz).0 (J.unmarshal bz).1 v
  read_rest_req-Reads (err e) v h =
      (false, error_writes J (J.text_of e), rw (write_error_lem (J.text_of e) v) refl, refl)
  read_rest_req-Reads panic v h = absurd (h refl)

module _ (J : Json) (G : Tables) (K : Crypto) (rlp_encode : Tx → Slice) (uuid : Str) (now : ℕ) where
  receive_tx_lem :
      (req : TxReceiver) (read : Bool) (out : Slice) (v : Served G)
      → IsQuiet G.tx_table
      → J.marshal_tx (posted K rlp_encode uuid now req) ≡ ok out
      → receive_tx J G K rlp_encode uuid now (req, read) v ≡ (
        ok tt,
        record {
          db = record v.db {
            txs = G.tx_table.inserted (posted K rlp_encode uuid now req ∷ []) v.db.txs;
          };
          written = v.written ++ denial J G read ++ answer J G out;
        },
      )
  unfolding receive_tx new_pending_tx new_tx assign_hash rlp_hash insert_tx
  receive_tx_lem req read out v quiet made =
      let entered : Tx = posted K rlp_encode uuid now req in
      let e : report J G (unread J G read) (codes "Cannot read request") v
          ≡ (ok tt, record v { written = v.written ++ denial J G read }) =
        report-unread J G read v in
      rw (e, G.tx_table.insert_lem (entered ∷ []) v.db.txs, quiet v.db.txs, made, report)
        (simp append_assoc refl)

  pub tx_receiver_handler-Received :
      (request : Request) (out : Slice) (v : Served G)
      → IsQuiet G.tx_table
      → request ≢ panic
      → J.marshal_tx (posted K rlp_encode uuid now (read_as J request).0) ≡ ok out
      → (s : G.tx_table.Store) × (tx_receiver_handler J G K rlp_encode uuid now request v ≡ (
        ok tt,
        record {
          db = record v.db { txs = s };
          written = v.written ++ (read_as J request).1 ++ answer J G out;
        },
      ))
        × (G.tx_table.rows s
            ≡ G.tx_table.rows v.db.txs ++ posted K rlp_encode uuid now (read_as J request).0 ∷ [])
  unfolding tx_receiver_handler
  tx_receiver_handler-Received request out v quiet readable made =
      let (read, writes, runs, complaint) = read_rest_req-Reads J G request v readable in
      let req : TxReceiver = (read_as J request).0 in
      let entered : Tx = posted K rlp_encode uuid now req in
      let told : Served G = record v { written = v.written ++ writes } in
      let answered : List Write → Outcome (Unit {0}) × Served G = λ ws. (
        ok tt,
        record {
          db = record v.db { txs = G.tx_table.inserted (entered ∷ []) v.db.txs };
          written = ws ++ answer J G out;
        },
      ) in
      let same : told.written ++ denial J G read ≡ v.written ++ (read_as J request).1 =
        append_assoc v.written writes (denial J G read) ∙ ap (λ ws. v.written ++ ws) complaint in
      (
        G.tx_table.inserted (entered ∷ []) v.db.txs,
        rw runs (receive_tx_lem req read out told quiet made ∙ ap answered same),
        G.tx_table.rows-inserted (entered ∷ []) v.db.txs,
      )
