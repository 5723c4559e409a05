-- ===== src/Listener/Subtree.antt =====
-- listener/processors.go: a deposit subtree, as the rows of its deposits and its leaves.
use reddit_commander.Prelude.{
  ℕ, zero, suc, ◌-◌, ◌%◌, ◌^◌, ◌≤◌, ◌<◌, ◌≡◌, ◌≢◌, refl, sym, ap, ◌∙◌, subst, some, List, [], ◌∷◌,
  ◌++◌, map, length, get_elem?, All, All-append, select, arith, ok,
}
use reddit_commander.Bytes.{Str, ByteArray}
use reddit_commander.NodePath.{IsBits, uint64, solidity_path_to_node_path}
use reddit_commander.NodePath.Binary.{binary, length-binary, binary-IsBits, solidity_path_lem}
use reddit_commander.Merkle.{Crypto}
use reddit_commander.State.{UserState, new_pending_user_state}
use reddit_commander.State.Rows.{Rows, Node}
use reddit_commander.Database.{Tables}
use reddit_commander.Tx.Leaves.{holding}
use reddit_commander.Deposit.{is_terminal_under}
use reddit_commander.Deposit.Sound.{Sound}
use reddit_commander.Deposit.Finalise.{Entered, Places, filled_row}
use reddit_commander.Deposit.Nodes.{paths, IsEmptyLeaf, under-Places}
use reddit_commander.Deposit.Enter.{waiting_under, length-map}
use reddit_commander.Deposit.Closed.{attach}
use reddit_commander.Deposit.Settled.{Shaped, Shaped-queued, Shaped-attach}
use reddit_commander.Deposit.Queue.{
  Waiting, NonePending, Waiting-attach, nodes_beside, terminals_beside, Sound-beside,
  waiting_beside,
}
use reddit_commander.Listener.{Chain, DepositQueued}
use reddit_commander.Listener.Lifecycle.{pending_row, pending_row-Waiting}

get_elem?-map {ℓ κ} :
    {A : Type ℓ} {B : Type κ} (f : A → B) (xs : List A) (i : ℕ) (x : A)
    → get_elem? xs i ≡ some x
    → get_elem? (map f xs) i ≡ some (f x)
get_elem?-map f [] i x e = cc
get_elem?-map f (y ∷ xs) zero x e = cc
get_elem?-map f (y ∷ xs) (suc i) x e = get_elem?-map f xs i x e

module _ (K : Crypto) (C : Chain) (G : Tables) where
  -- The leaves under the path of an index at the level above them.
  abbrev pub leaves_under : ℕ → ℕ → Rows → List Str
  leaves_under d index rows = paths (select (is_terminal_under (binary (d - 1) index)) rows)

  -- What the events of a subtree have made of the rows of a tree of depth `d`.
  pub record Deposited (d index : ℕ) (events : List DepositQueued) (rows rows' : Rows)
      : Type 0 where
    pub sound : Sound K d rows'
    pub shaped : All (Shaped d) rows'
    pub entered :
        (j : ℕ) (event : DepositQueued) (n : Str) (r : UserState)
        → get_elem? events j ≡ some event
        → get_elem? (leaves_under d index rows) j ≡ some n
        → Node rows n r
        → Node rows' n (holding K G event.payload r)
    pub others :
        (q : Str) (r : UserState)
        → IsBits q
        → length q ≡ d
        → ((j : ℕ) → j < length events → get_elem? (leaves_under d index rows) j ≢ some q)
        → Node rows q r
        → Node rows' q r

  -- Rows on which the deposits that wait with a root can be finalised under an index.
  abbrev pub Finalisable : ℕ → ℕ → ByteArray → Rows → Type 0
  Finalisable d index root rows =
      Sound K d rows
      × All (Shaped d) rows
      × All IsEmptyLeaf (select (is_terminal_under (binary (d - 1) index)) rows)
      × (length (waiting_under root rows)
          ≤ length (select (is_terminal_under (binary (d - 1) index)) rows))

  -- The rows of the deposits, with the root of their subtree.
  abbrev pub deposits : ByteArray → List DepositQueued → Rows
  deposits root events = map (attach G.state_table root) (map (pending_row K C G) events)

  pub pending-Waiting : (events : List DepositQueued) → All Waiting (map (pending_row K C G) events)
  pending-Waiting [] = tt
  pending-Waiting (e ∷ events) = (pending_row-Waiting K C G e, pending-Waiting events)

  pub deposits-Waiting :
      (root : ByteArray) (events : List DepositQueued) → All Waiting (deposits root events)
  deposits-Waiting root [] = tt
  deposits-Waiting root (e ∷ events) = (
    Waiting-attach G.state_table root (pending_row K C G e) (pending_row-Waiting K C G e),
    deposits-Waiting root events,
  )

  pub deposits-Shaped :
      (d : ℕ) (root : ByteArray) (events : List DepositQueued)
      → All (Shaped d) (deposits root events)
  deposits-Shaped d root [] = tt
  deposits-Shaped d root (e ∷ events) = (
    Shaped-attach G.state_table d root (pending_row K C G e)
        (Shaped-queued K d (e.account_id % uint64) e.payload),
    deposits-Shaped d root events,
  )

  pub deposit-filled :
      (root : ByteArray) (e : DepositQueued) (r : UserState)
      → filled_row K G.state_table (attach G.state_table root (pending_row K C G e)) r
        ≡ holding K G e.payload r
  unfolding new_pending_user_state
  deposit-filled root e r = refl

  module _ (d index : ℕ) (root : ByteArray) (events : List DepositQueued) (rows : Rows) (lo : 1 < d)
      (hi : d ≤ 64) (small : index < 2 ^ (d - 1)) (sound : Sound K d rows)
      (settled : NonePending rows) where
    abbrev pub ready_rows : Rows
    ready_rows = rows ++ deposits root events

    abbrev pub under : Str
    under = binary (d - 1) index

    pub made : solidity_path_to_node_path index (d - 1) ≡ ok under
    made = solidity_path_lem index (d - 1) (omega arith) (omega arith) small

    pub same_leaves :
        select (is_terminal_under under) ready_rows ≡ select (is_terminal_under under) rows
    same_leaves =
        terminals_beside rows (deposits root events) (deposits-Waiting root events) under
          (omega (arith, length-binary (d - 1) index)) (binary-IsBits (d - 1) index)

    pub same-Node : (q : Str) (r : UserState) → IsBits q → Node rows q r → Node ready_rows q r
    same-Node q r bits at =
        nodes_beside rows (deposits root events) (deposits-Waiting root events) q bits ∙ at

    pub waits : waiting_under root ready_rows ≡ deposits root events
    waits =
        waiting_beside rows (map (pending_row K C G) events) (pending-Waiting events) settled
          G.state_table root

    pub ready_rows-Finalisable :
        All (Shaped d) rows
        → All IsEmptyLeaf (select (is_terminal_under under) rows)
        → length events ≤ length (leaves_under d index rows)
        → Finalisable d index root ready_rows
    ready_rows-Finalisable shaped empty room = (
      Sound-beside rows (deposits root events) (deposits-Waiting root events) K d sound,
      All-append (Shaped d) rows (deposits root events) shaped (deposits-Shaped d root events),
      subst (All IsEmptyLeaf) (sym same_leaves) empty,
      omega (
        arith,
        ap length waits,
        ap length same_leaves,
        length-map (attach G.state_table root) (map (pending_row K C G) events),
        length-map (pending_row K C G) events,
        length-map (λ (row : UserState). row.path) (select (is_terminal_under under) rows),
        room,
      ),
    )

    pub Deposited-Entered :
        (rows' : Rows)
        → All (Shaped d) rows'
        → Entered K G.state_table d 0
            (paths (select (is_terminal_under under) ready_rows))
            (waiting_under root ready_rows)
            ready_rows
            rows'
        → Deposited d index events rows rows'
    Deposited-Entered rows' shaped done = record {
      sound = done.sound;
      shaped = shaped;
      entered = λ j event n r ee en at.
          let places : Places K G.state_table d (leaves_under d index rows) =
            under-Places K G.state_table d index under rows lo hi small made sound in
          let (bits, len) = places.leaves j n en in
          subst (λ x. Node rows' n x) (deposit-filled root event r)
            (moved.entered j (attach G.state_table root (pending_row K C G event)) n r
              (get_elem?-map (attach G.state_table root) (map (pending_row K C G) events) j
                (pending_row K C G event) (get_elem?-map (pending_row K C G) events j event ee))
              (subst (λ k. get_elem? (leaves_under d index rows) k ≡ some n) (omega arith) en)
              (same-Node n r bits at));
      others = λ q r bits len apart at.
          moved.others q r bits len
            (λ j le lt. apart j (
              omega (
                arith,
                lt,
                length-map (attach G.state_table root) (map (pending_row K C G) events),
                length-map (pending_row K C G) events,
              )))
            (same-Node q r bits at);
    }
      where
        moved :
            Entered K G.state_table d 0
              (leaves_under d index rows)
              (deposits root events)
              ready_rows
              rows'
        moved =
            subst
              (λ accounts.
                Entered K G.state_table d 0 (leaves_under d index rows) accounts ready_rows rows')
              waits
              (subst
                (λ leaves.
                  Entered K G.state_table d 0 (paths leaves) (waiting_under root ready_rows)
                    ready_rows rows')
                same_leaves done)
