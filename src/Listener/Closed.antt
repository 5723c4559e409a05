-- ===== src/Listener/Closed.antt =====
-- listener/processors.go and listener/syncer.go: what every handler of an event does to the rows of
-- the state tree, whichever statements fail.
use reddit_commander.Prelude.{
  ℕ, ◌%◌, ◌^◌, ◌≡◌, refl, sym, subst, Bool, true, false, Option, none, some, inl, inr, List, [],
  ◌∷◌, Outcome, Outcome-cases, ok, err, panic, leb, if◌then◌else◌, list_eq, codes, ◌==◌,
}
use reddit_commander.Bytes.{Str, Slice}
use reddit_commander.Constants.{batch_committed}
use reddit_commander.NodePath.{uint64, solidity_path_to_node_path}
use reddit_commander.Merkle.{Crypto}
use reddit_commander.Gorm.{Exec, lift, pure, attempt, ◌>>=◌}
use reddit_commander.Gorm.Keeps.{Preorder, Keeps}
use reddit_commander.State.{attach_deposit_info}
use reddit_commander.State.Rows.{Rows}
use reddit_commander.Params.{
  Params, get_params, get_sync_status, update_sync_status_with_batch_number,
  update_sync_status_with_block_number,
}
use reddit_commander.Account.{new_account}
use reddit_commander.Batch.{get_batch_by_index}
use reddit_commander.Bytes.Hex.{encode}
use reddit_commander.Database.{Tables, Db, on_states, on_params, on_syncs, on_batches}
use reddit_commander.Deposit.{get_deposit_node_and_siblings, finalise_deposits_and_add_batch}
use reddit_commander.Deposit.Closed.{
  Closed, add_new_pending_account-Keeps, attach_deposit_info-Keeps,
}
use reddit_commander.Deposit.Calls.{
  OverDb, OverDb-Preorder, OverDb-bind, get_deposit_node_and_siblings-Keeps,
  finalise_deposits_and_add_batch-Keeps,
}
use reddit_commander.Listener.{
  Chain, Log, Event, event_by_id, NewBatch, NewPubkeyAdded, Known, must, or_return, known,
  add_pubkey, process_new_pubkey_addition, process_deposit_queued, send_deposit_finalisation_tx,
  process_deposit_subtree_created, process_deposit_finalised, commit_batch, committed_batch,
  store_batch, record_batch, batch_txs, process_new_batch, process_registered_token,
}
use reddit_commander.Listener.Syncer.{
  process_event, process_selected, match_abis, match_topics, process_log, process_logs,
  process_events, header_logs, with_logs, process_header,
}

or_return-state : {S : Type 0} (m : Exec S (Unit {0})) (s : S) → (or_return m s).1 ≡ (m s).1
or_return-state m s = elim (Outcome-cases (m s).0) [
  | inl (a, e) ↦ rw (e, or_return) refl
  | inr (inl (e, h)) ↦ rw (h, or_return) refl
  | inr (inr h) ↦ rw (h, or_return) refl
]

module _ (K : Crypto) (C : Chain) (G : Tables) (R : Rows → Rows → Type 0)
    (closed : Closed K G.state_table R) where
  abbrev pub Moves : Db G → Db G → Type 0
  Moves = OverDb K G R closed

  order : Preorder Moves
  order = OverDb-Preorder K G R closed

  Moves-bind {ℓ κ} :
      {A : Type ℓ} {B : Type κ} (m : Exec (Db G) A) (f : A → Exec (Db G) B)
      → Keeps Moves m
      → ((a : A) → Keeps Moves (f a))
      → Keeps Moves (m >>= f)
  Moves-bind = OverDb-bind K G R closed

  if-Keeps {ℓ} :
      {A : Type ℓ} (b : Bool) (m n : Exec (Db G) A)
      → Keeps Moves m
      → Keeps Moves n
      → Keeps Moves (if b then m else n)
  if-Keeps true m n h k = h
  if-Keeps false m n h k = k

  -- The callers that go on with a value and return otherwise.
  or_nothing-Keeps {ℓ} :
      {A : Type ℓ} (r : Outcome A) (f : A → Exec (Db G) (Unit {0}))
      → ((a : A) → Keeps Moves (f a))
      → Keeps Moves (elim r as (λ r. Exec (Db G) (Unit {0})) [
        | ok a ↦ f a
        | err e ↦ pure tt
        | panic ↦ lift panic
      ])
  or_nothing-Keeps (ok a) f h = h a
  or_nothing-Keeps (err e) f h = order.stay
  or_nothing-Keeps panic f h = order.stay

  or_none-Keeps {ℓ κ} :
      {A : Type ℓ} {B : Type κ} (r : Outcome A) (f : A → Exec (Db G) (Option B))
      → ((a : A) → Keeps Moves (f a))
      → Keeps Moves (elim r as (λ r. Exec (Db G) (Option B)) [
        | ok a ↦ f a
        | err e ↦ pure none
        | panic ↦ lift panic
      ])
  or_none-Keeps (ok a) f h = h a
  or_none-Keeps (err e) f h = order.stay
  or_none-Keeps panic f h = order.stay

  or_return-Keeps : (m : Exec (Db G) (Unit {0})) → Keeps Moves m → Keeps Moves (or_return m)
  or_return-Keeps m h db = subst (Moves db) (sym (or_return-state m db)) (h db)

  send-Keeps : Keeps Moves (send_deposit_finalisation_tx K C G)
  unfolding send_deposit_finalisation_tx
  send-Keeps = or_return-Keeps _ (
      Moves-bind {B = Unit {0}} (on_params G (get_params G.params_table)) _ order.stay λ params.
        Moves-bind {B = Unit {0}} (get_deposit_node_and_siblings K G) _
          (get_deposit_node_and_siblings-Keeps K G R closed) λ found. order.stay)

  add_pubkey-Keeps : (event : NewPubkeyAdded) (p : Params) → Keeps Moves (add_pubkey K C G event p)
  unfolding add_pubkey
  add_pubkey-Keeps event p =
      Moves-bind {B = Unit {0}}
        (must (lift (solidity_path_to_node_path (event.account_id % uint64) p.max_depth))) _
        order.stay
        λ path.
          Moves-bind {B = Unit {0}}
            (must (
              lift (
                new_account K C.pack_bytes (event.account_id % uint64) (encode event.pubkey) path)))
            _ order.stay λ new_acc. order.stay

  process_new_pubkey_addition-Keeps :
      (v_log : Log) → Keeps Moves (process_new_pubkey_addition K C G v_log)
  unfolding process_new_pubkey_addition add_pubkey
  process_new_pubkey_addition-Keeps v_log =
      Moves-bind {B = Unit {0}} (must (lift (C.unpack_pubkey v_log))) _ order.stay λ event.
        Moves-bind {B = Unit {0}} (attempt (on_params G (get_params G.params_table))) _ order.stay
          λ params. or_nothing-Keeps params (add_pubkey K C G event) λ p. add_pubkey-Keeps event p

  process_deposit_queued-Keeps : (v_log : Log) → Keeps Moves (process_deposit_queued K C G v_log)
  unfolding process_deposit_queued
  process_deposit_queued-Keeps v_log =
      Moves-bind {B = Unit {0}} (must (lift (C.unpack_queued v_log))) _ order.stay λ event db.
        add_new_pending_account-Keeps K G.state_table R closed (event.account_id % uint64)
          event.payload db.states

  process_deposit_subtree_created-Keeps :
      (v_log : Log) → Keeps Moves (process_deposit_subtree_created K C G v_log)
  unfolding process_deposit_subtree_created
  process_deposit_subtree_created-Keeps v_log =
      Moves-bind {B = Unit {0}} (must (lift (C.unpack_ready v_log))) _ order.stay λ event.
        Moves-bind {B = Unit {0}}
          (must (on_states G (attach_deposit_info K G.state_table event.root))) _
          (λ db. attach_deposit_info-Keeps K G.state_table R closed event.root db.states)
          λ done. send-Keeps

  process_deposit_finalised-Keeps :
      (v_log : Log) → Keeps Moves (process_deposit_finalised K C G v_log)
  unfolding process_deposit_finalised
  process_deposit_finalised-Keeps v_log =
      Moves-bind {B = Unit {0}} (must (lift (C.unpack_finalised v_log))) _ order.stay λ event.
        Moves-bind {B = Unit {0}}
          (attempt (
            finalise_deposits_and_add_batch K G event.deposit_sub_tree_root
              (event.path_to_sub_tree % uint64)))
          _
          (finalise_deposits_and_add_batch-Keeps K G R closed event.deposit_sub_tree_root
            (event.path_to_sub_tree % uint64))
          λ done. order.stay

  store_batch-Keeps :
      (event : NewBatch) (p : Params) (txs : List Slice) (k : Known)
      → Keeps Moves (store_batch K C G event p txs k)
  unfolding store_batch commit_batch
  store_batch-Keeps event p txs Known.unseen = order.stay
  store_batch-Keeps event p txs Known.unreadable = order.stay
  store_batch-Keeps event p txs (Known.seen batch) =
      Moves-bind {B = Unit {0}}
        (if batch.status == batch_committed
          then pure (ok tt)
          else attempt (commit_batch K C G (committed_batch K C G event p txs)))
        _ (if-Keeps (batch.status == batch_committed) (pure (ok tt)) _ order.stay order.stay)
        λ committed.
          Moves-bind {B = Unit {0}}
            (attempt (
              on_syncs G
                (update_sync_status_with_batch_number G.sync_table (event.index % uint64))))
            _ order.stay λ updated. order.stay

  process_new_batch-Keeps : (v_log : Log) → Keeps Moves (process_new_batch K C G v_log)
  unfolding process_new_batch record_batch
  process_new_batch-Keeps v_log =
      Moves-bind {B = Unit {0}} (must (lift (C.unpack_batch v_log))) _ order.stay λ event.
        Moves-bind {B = Unit {0}} (attempt (on_params G (get_params G.params_table))) _ order.stay
          λ params. or_nothing-Keeps params (record_batch K C G v_log event) λ p.
            Moves-bind {B = Unit {0}} (must (lift (batch_txs K C G v_log event))) _ order.stay
              λ txs.
                Moves-bind {B = Unit {0}}
                  (attempt (on_batches G (get_batch_by_index G.batch_table (event.index % uint64))))
                  _ order.stay λ found. store_batch-Keeps event p txs (known found)

  process_registered_token-Keeps :
      (v_log : Log) → Keeps Moves (process_registered_token K C G v_log)
  unfolding process_registered_token
  process_registered_token-Keeps v_log =
      Moves-bind {B = Unit {0}} (must (lift (C.unpack_token v_log))) _ order.stay
        λ event. order.stay

  process_event-Keeps : (name : Str) (v_log : Log) → Keeps Moves (process_event K C G name v_log)
  unfolding process_event
  process_event-Keeps name v_log =
      if-Keeps (list_eq name (codes "RegisteredToken")) _ _ (process_registered_token-Keeps v_log) (
        if-Keeps (list_eq name (codes "NewBatch")) _ _ (process_new_batch-Keeps v_log) (
          if-Keeps (list_eq name (codes "NewPubkeyAdded")) _ _
            (process_new_pubkey_addition-Keeps v_log)
            (if-Keeps (list_eq name (codes "DepositQueued")) _ _
              (process_deposit_queued-Keeps v_log)
              (if-Keeps (list_eq name (codes "DepositSubTreeReady")) _ _
                (process_deposit_subtree_created-Keeps v_log)
                (if-Keeps (list_eq name (codes "DepositsFinalised")) _ _
                  (process_deposit_finalised-Keeps v_log) order.stay)))))

  process_selected-Keeps :
      (event : Option Event) (v_log : Log) → Keeps Moves (process_selected K C G event v_log)
  process_selected-Keeps none v_log = order.stay
  process_selected-Keeps (some event) v_log = process_event-Keeps event.name v_log

  match_abis-Keeps :
      (abis : List (List Event)) (topic : List ℕ) (v_log : Log)
      → Keeps Moves (match_abis K C G abis topic v_log)
  unfolding match_abis
  match_abis-Keeps [] topic v_log = order.stay
  match_abis-Keeps (abi_object ∷ rest) topic v_log =
      Moves-bind {B = Unit {0}} (process_selected K C G (event_by_id abi_object topic) v_log) _
        (process_selected-Keeps (event_by_id abi_object topic) v_log)
        λ done. match_abis-Keeps rest topic v_log

  match_topics-Keeps :
      (abis : List (List Event)) (topics : List (List ℕ)) (v_log : Log)
      → Keeps Moves (match_topics K C G abis topics v_log)
  unfolding match_topics
  match_topics-Keeps abis [] v_log = order.stay
  match_topics-Keeps abis (topic ∷ topics) v_log = match_abis-Keeps abis topic v_log

  process_logs-Keeps :
      (abis : List (List Event)) (logs : List Log) → Keeps Moves (process_logs K C G abis logs)
  unfolding process_logs process_log
  process_logs-Keeps abis [] = order.stay
  process_logs-Keeps abis (v_log ∷ logs) =
      Moves-bind {B = Unit {0}} (process_log K C G abis v_log) _
        (match_topics-Keeps abis v_log.topics v_log) λ done. process_logs-Keeps abis logs

  pub process_events-Keeps :
      (abis : List (List Event)) (logs : List Log) (number : ℕ)
      → Keeps Moves (process_events K C G abis logs number)
  unfolding process_events
  process_events-Keeps abis logs number =
      Moves-bind {B = Unit {0}} (process_logs K C G abis logs) _ (process_logs-Keeps abis logs)
        λ done.
          or_return-Keeps
            (on_syncs G (update_sync_status_with_block_number G.sync_table (number % 2 ^ 64)))
            order.stay

  header_logs-Keeps : (number : ℕ) → Keeps Moves (header_logs K C G number)
  unfolding header_logs
  header_logs-Keeps number =
      Moves-bind {B = Option (List Log)} (attempt (on_syncs G (get_sync_status G.sync_table))) _
        order.stay
        λ status. or_none-Keeps status _ λ sync_status.
          if-Keeps (leb (number % 2 ^ 64) sync_status.last_eth_block_recorded) _ _ order.stay (
            or_none-Keeps (C.filter_logs sync_status.last_eth_block_recorded number) _
              λ logs. order.stay)

  with_logs-Keeps :
      (abis : List (List Event)) (number : ℕ) (found : Option (List Log))
      → Keeps Moves (with_logs K C G abis number found)
  with_logs-Keeps abis number none = order.stay
  with_logs-Keeps abis number (some logs) = process_events-Keeps abis logs number

  pub process_header-Keeps :
      (abis : List (List Event)) (number : ℕ) → Keeps Moves (process_header K C G abis number)
  unfolding process_header
  process_header-Keeps abis number =
      Moves-bind {B = Unit {0}} (header_logs K C G number) _ (header_logs-Keeps number)
        (with_logs-Keeps abis number)
