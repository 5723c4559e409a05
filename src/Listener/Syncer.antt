-- ===== src/Listener/Syncer.antt =====
-- listener/syncer.go and listener/utils.go: the handling of a new header, with its events handled to
-- the end before the next header.
use reddit_commander.Prelude.{
  ℕ, ◌%◌, ◌^◌, Option, none, some, List, [], ◌∷◌, ok, err, panic, leb, list_eq, if◌then◌else◌,
  codes,
}
use reddit_commander.Bytes.{Str}
use reddit_commander.Merkle.{Crypto}
use reddit_commander.Gorm.{Exec, attempt, lift, pure, ◌>>=◌, ◌>>◌}
use reddit_commander.Params.{get_sync_status, update_sync_status_with_block_number}
use reddit_commander.Database.{Tables, Db, on_syncs}
use reddit_commander.Listener.{
  Chain, Log, Event, event_by_id, or_return, process_new_pubkey_addition, process_deposit_queued,
  process_deposit_subtree_created, process_deposit_finalised, process_new_batch,
  process_registered_token,
}

module _ (K : Crypto) (C : Chain) (G : Tables) where
  -- The switch of `processEvents` on the event's name.
  unfoldable pub process_event : Str → Log → Exec (Db G) (Unit {0})
  process_event name v_log =
      if list_eq name (codes "RegisteredToken")
      then process_registered_token K C G v_log
      else if list_eq name (codes "NewBatch")
      then process_new_batch K C G v_log
      else if list_eq name (codes "NewPubkeyAdded")
      then process_new_pubkey_addition K C G v_log
      else if list_eq name (codes "DepositQueued")
      then process_deposit_queued K C G v_log
      else if list_eq name (codes "DepositSubTreeReady")
      then process_deposit_subtree_created K C G v_log
      else if list_eq name (codes "DepositsFinalised")
      then process_deposit_finalised K C G v_log
      else pure tt

  abbrev pub process_selected : Option Event → Log → Exec (Db G) (Unit {0})
  process_selected none v_log = pure tt
  process_selected (some event) v_log = process_event event.name v_log

  -- One log against every loaded ABI.
  unfoldable pub match_abis : List (List Event) → List ℕ → Log → Exec (Db G) (Unit {0})
  match_abis [] topic v_log = pure tt
  match_abis (abi_object ∷ rest) topic v_log = do
    process_selected (event_by_id abi_object topic) v_log
    match_abis rest topic v_log

  -- A log without topics panics.
  unfoldable pub match_topics : List (List Event) → List (List ℕ) → Log → Exec (Db G) (Unit {0})
  unfolding match_abis
  match_topics abis [] v_log = λ db. (panic, db)
  match_topics abis (topic ∷ topics) v_log = match_abis abis topic v_log

  unfoldable pub process_log : List (List Event) → Log → Exec (Db G) (Unit {0})
  unfolding match_topics
  process_log abis v_log = match_topics abis v_log.topics v_log

  unfoldable pub process_logs : List (List Event) → List Log → Exec (Db G) (Unit {0})
  unfolding process_log
  process_logs abis [] = pure tt
  process_logs abis (v_log ∷ logs) = do process_log abis v_log; process_logs abis logs

  -- `processEvents`: an error of the last update is printed. The header's number is a big.Int, of which
  -- `Uint64` takes the low 64 bits.
  unfoldable pub process_events : List (List Event) → List Log → ℕ → Exec (Db G) (Unit {0})
  unfolding process_logs
  process_events abis logs number = do
    process_logs abis logs
    or_return (on_syncs G (update_sync_status_with_block_number G.sync_table (number % 2 ^ 64)))

  -- `processHeader` up to the start of `processEvents`: the logs that it starts it with, if it does.
  unfoldable pub header_logs : ℕ → Exec (Db G) (Option (List Log))
  header_logs number = do
    status ← attempt (on_syncs G (get_sync_status G.sync_table))
    elim status [
      | ok sync_status ↦
          if leb (number % 2 ^ 64) sync_status.last_eth_block_recorded
          then pure none
          else elim (C.filter_logs sync_status.last_eth_block_recorded number) [
            | ok logs ↦ pure (some logs)
            | err e ↦ pure none
            | panic ↦ lift panic
          ]
      | err e ↦ pure none
      | panic ↦ lift panic
    ]

  -- The goroutine that `processHeader` starts, run to its end.
  abbrev pub with_logs : List (List Event) → ℕ → Option (List Log) → Exec (Db G) (Unit {0})
  with_logs abis number none = pure tt
  with_logs abis number (some logs) = process_events abis logs number

  -- `processHeader` for the header with this number, and the goroutine that it starts.
  unfoldable pub process_header : List (List Event) → ℕ → Exec (Db G) (Unit {0})
  unfolding header_logs process_events
  process_header abis number = do found ← header_logs number; with_logs abis number found
