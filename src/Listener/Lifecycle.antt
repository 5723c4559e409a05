-- ===== src/Listener/Lifecycle.antt =====
-- listener/processors.go: deposits from their events to the leaves of the tree.
use reddit_commander.Prelude.{
  ◌%◌, ◌<◌, ◌≡◌, ◌≢◌, refl, sym, ap, ◌∙◌, List, [], ◌∷◌, ◌++◌, append-nil, append_assoc, map,
  Outcome, ok, err, panic, panic≢ok, err≢panic,
}
use reddit_commander.NodePath.{uint64}
use reddit_commander.Merkle.{Crypto}
use reddit_commander.Gorm.{Exec, IsQuiet, pure, continue, ◌>>=◌, ◌>>◌, map_where}
use reddit_commander.State.{
  UserState, new_pending_user_state, add_new_pending_account, attach_deposit_info,
}
use reddit_commander.Params.{Params, get_params}
use reddit_commander.Params.Writes.{get_params_one}
use reddit_commander.Database.{Tables, Db, on_params}
use reddit_commander.Deposit.{get_deposit_node_and_siblings}
use reddit_commander.Deposit.Closed.{is_pending, attach}
use reddit_commander.Deposit.Queue.{Waiting}
use reddit_commander.Deposit.Harmless.{get_deposit_node_and_siblings-Fine}
use reddit_commander.Listener.{
  Chain, Log, DepositQueued, DepositSubTreeReady, or_return, process_deposit_queued,
  send_deposit_finalisation_tx, process_deposit_subtree_created,
}

or_return-ok :
    {S : Type 0} (m : Exec S (Unit {0})) (s : S) (r : Outcome (Unit {0})) (s' : S)
    → m s ≡ (r, s')
    → r ≢ panic
    → or_return m s ≡ (ok tt, s')
or_return-ok {S} m s r s' e fine = ap ended e ∙ ends r fine
  where
    ended : Outcome (Unit {0}) × S → Outcome (Unit {0}) × S
    ended x = elim x.0 [ ok a ↦ (ok tt, x.1) | err e ↦ (ok tt, x.1) | panic ↦ (panic, x.1) ]

    ends : (r : Outcome (Unit {0})) → r ≢ panic → ended (r, s') ≡ (ok tt, s')
    ends (ok a) h = refl
    ends (err e) h = refl
    ends panic h = absurd (h refl)

continue_tt :
    {S A : Type 0} (r : Outcome A) (s : S)
    → r ≢ panic
    → (r' : Outcome (Unit {0})) × (continue r (λ a. pure tt) s ≡ (r', s)) × (r' ≢ panic)
continue_tt (ok a) s fine = (ok tt, refl, λ h. panic≢ok (sym h))
continue_tt (err e) s fine = (err e, refl, err≢panic e (err e) refl)
continue_tt panic s fine = absurd (fine refl)

module _ (K : Crypto) (C : Chain) (G : Tables) where
  -- The handling of the events of several deposits.
  pub queue_all : List Log → Exec (Db G) (Unit {0})
  queue_all [] = pure tt
  queue_all (v_log ∷ logs) = do process_deposit_queued K C G v_log; queue_all logs

  -- The queries of `SendDepositFinalisationTx`.
  send_query : Exec (Db G) (Unit {0})
  send_query = do
    params ← on_params G (get_params G.params_table)
    found ← get_deposit_node_and_siblings K G
    pure tt

  -- The logs are the events of these deposits.
  abbrev pub Unpacked : List Log → List DepositQueued → Type 0
  Unpacked [] [] = Unit
  Unpacked [] (event ∷ events) = ⊥
  Unpacked (v_log ∷ logs) [] = ⊥
  Unpacked (v_log ∷ logs) (event ∷ events) =
      (C.unpack_queued v_log ≡ ok event) × Unpacked logs events

  abbrev pub pending_row : DepositQueued → UserState
  pending_row event = new_pending_user_state K (event.account_id % uint64) event.payload

  pub pending_row-Waiting : (event : DepositQueued) → Waiting (pending_row event)
  unfolding new_pending_user_state
  pending_row-Waiting event = record { pending = refl; nowhere = refl }

  module _ (quiet : IsQuiet G.state_table) where
    queued_one :
        (v_log : Log) (event : DepositQueued) (db : Db G)
        → C.unpack_queued v_log ≡ ok event
        → process_deposit_queued K C G v_log db ≡ (
          ok tt,
          record db { states = G.state_table.inserted (pending_row event ∷ []) db.states },
        )
    unfolding process_deposit_queued add_new_pending_account
    queued_one v_log event db e =
        rw (e, G.state_table.insert_lem (pending_row event ∷ []) db.states, quiet db.states) refl

    pub queued_all :
        (logs : List Log) (events : List DepositQueued) (db : Db G)
        → Unpacked logs events
        → (s : G.state_table.Store) × (queue_all logs db ≡ (ok tt, record db { states = s }))
          × (G.state_table.rows s ≡ G.state_table.rows db.states ++ map pending_row events)
    unfolding queue_all
    queued_all [] [] db e = (db.states, refl, sym (append-nil (G.state_table.rows db.states)))
    queued_all [] (event ∷ events) db e = absurd e
    queued_all (v_log ∷ logs) [] db e = absurd e
    queued_all (v_log ∷ logs) (event ∷ events) db e =
        let s1 : G.state_table.Store = G.state_table.inserted (pending_row event ∷ []) db.states in
        let (s, runs, rows) = queued_all logs events (record db { states = s1 }) e.1 in
        (
          s,
          rw (queued_one v_log event db e.0) runs,
          rows
              ∙ ap (λ xs. xs ++ map pending_row events)
                  (G.state_table.rows-inserted (pending_row event ∷ []) db.states)
              ∙ append_assoc (G.state_table.rows db.states) (pending_row event ∷ [])
                  (map pending_row events),
        )

    module _ (quiet_params : IsQuiet G.params_table) where
      -- `SendDepositFinalisationTx` reads only.
      sent :
          (p : Params) (db : Db G)
          → p.max_deposit_sub_tree_height < 100
          → G.params_table.rows db.params ≡ p ∷ []
          → (db' : Db G) × (send_deposit_finalisation_tx K C G db ≡ (ok tt, db'))
            × (G.state_table.rows db'.states ≡ G.state_table.rows db.states)
            × (G.params_table.rows db'.params ≡ p ∷ [])
      unfolding send_deposit_finalisation_tx send_query
      sent p db small one =
          let db1 : Db G = record db { params = G.params_table.tick db.params } in
          let one1 : G.params_table.rows db1.params ≡ p ∷ [] =
            G.params_table.rows-tick db.params ∙ one in
          let (r, db', runs, fine, same, same_params) =
            get_deposit_node_and_siblings-Fine K G p db1 quiet_params small one1 in
          let (r', ends, fine') = continue_tt r db' fine in
          (
            db',
            or_return-ok send_query db r' db'
                (rw (get_params_one G.params_table quiet_params p db.params one, runs) ends) fine',
            same,
            ap G.params_table.rows same_params ∙ G.params_table.rows-tick db1.params ∙ one1,
          )

      -- The event of a complete subtree writes its root to every pending deposit.
      pub ready :
          (p : Params) (v_log : Log) (event : DepositSubTreeReady) (db : Db G)
          → C.unpack_ready v_log ≡ ok event
          → p.max_deposit_sub_tree_height < 100
          → G.params_table.rows db.params ≡ p ∷ []
          → (db' : Db G) × (process_deposit_subtree_created K C G v_log db ≡ (ok tt, db'))
            × (G.state_table.rows db'.states
                ≡ map_where is_pending
                    (attach G.state_table event.root)
                    (G.state_table.rows db.states))
            × (G.params_table.rows db'.params ≡ p ∷ [])
      unfolding process_deposit_subtree_created attach_deposit_info
      ready p v_log event db e small one =
          let s1 : G.state_table.Store =
            G.state_table.updated is_pending (attach G.state_table event.root) db.states in
          let (db', runs, same, params) = sent p (record db { states = s1 }) small one in
          (
            db',
            rw
                (
                  e,
                  G.state_table.update_lem is_pending (attach G.state_table event.root) db.states,
                  quiet db.states,
                )
                runs,
            same
                ∙ G.state_table.rows-updated is_pending (attach G.state_table event.root) db.states,
            params,
          )
