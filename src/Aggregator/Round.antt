-- ===== src/Aggregator/Round.antt =====
-- aggregator/aggregator.go: what rounds of the aggregator do to the mempool.
use native.Mathlib.Nat.{suc-mul}
use reddit_commander.Prelude.{
  ℕ, zero, suc, ◌+◌, ◌-◌, ◌*◌, ◌≤◌, ◌≡◌, refl, ap, ◌∙◌, Bool, true, Bool-cases, inl, inr, List, [],
  ◌∷◌, ◌++◌, map, length, select, All, All-imp, arith, ok, ltb, leb, ltb→ge, leb→le, leb→ge,
  list_eq_refl, ◌==◌, ap,
}
use reddit_commander.Constants.{tx_status_pending, tx_status_processing, tx_transfer_type}
use reddit_commander.Gorm.{Exec, Table, IsQuiet, map_where, pure, ◌>>◌}
use reddit_commander.Gorm.Counted.{found, found-Perm, found_every, found-append, found-map_where}
use reddit_commander.Tx.{Tx, Popped, is_one_of, is_pending, mark}
use reddit_commander.Tx.Pop.{Handed, by_id, transfers, chosen_type, pop_txs-Handed}
use reddit_commander.Database.{Tables, Db}
use reddit_commander.Aggregator.{pick_batch, process_and_submit_batch, process_tx, submit_batch}

-- The pending transfers of a mempool.
abbrev pub waiting : List Tx → ℕ
waiting rows = found (is_pending tx_transfer_type) rows

transfers-waiting : (rows : List Tx) → transfers rows ≡ waiting rows
transfers-waiting [] = refl
transfers-waiting (tx ∷ rows) = elim (Bool-cases (tx.tx_type == tx_transfer_type)) [
  | inl e ↦ elim (Bool-cases (tx.status == tx_status_pending)) [
    | inl h ↦ rw (e, h) (ap suc (transfers-waiting rows))
    | inr h ↦ rw (e, h) (transfers-waiting rows)
  ]
  | inr e ↦ elim (Bool-cases (tx.status == tx_status_pending)) [
    | inl h ↦ rw (e, h) (transfers-waiting rows)
    | inr h ↦ rw (e, h) (transfers-waiting rows)
  ]
]

by_id_self : (txs : List Tx) → All (λ tx. is_one_of (map (λ tx. tx.id) txs) tx.id ≡ true) txs
by_id_self [] = tt
by_id_self (tx ∷ txs) =
    (rw (list_eq_refl tx.id) refl, All-imp txs (λ x h. ground (arith, h)) (by_id_self txs))

marked_again :
    (b : Tx → Bool) (rows : List Tx)
    → map (mark 0) (map_where b (mark tx_status_processing) rows) ≡ map (mark 0) rows
marked_again b [] = refl
marked_again b (tx ∷ rows) = elim (Bool-cases (b tx)) [
  | inl e ↦ rw e (ap (λ xs. mark 0 tx ∷ xs) (marked_again b rows))
  | inr e ↦ rw e (ap (λ xs. mark 0 tx ∷ xs) (marked_again b rows))
]

module _ (T : Table Tx) (n : ℕ) (rows rows' txs : List Tx) (h : Handed T n rows rows' txs) where
  -- What is returned of the pending transfers is no longer pending.
  Handed-waiting : waiting rows' ≤ waiting rows - n
  Handed-waiting =
      let marked : waiting rows' + found (by_id T txs) (select (is_pending tx_transfer_type) rows)
          ≡ waiting rows =
        ap (λ rs. waiting rs + found (by_id T txs) (select (is_pending tx_transfer_type) rows))
          h.marked
        ∙ found-map_where (is_pending tx_transfer_type) (by_id T txs) (mark tx_status_processing)
            rows (λ x. refl) in
      elim (Bool-cases (ltb 0 (transfers rows))) [
        | inl e ↦
            let chosen : chosen_type rows ≡ tx_transfer_type = rw e refl in
            let drawn : found (by_id T txs) (txs ++ h.left)
                ≡ found (by_id T txs) (select (is_pending tx_transfer_type) rows) =
              found-Perm (by_id T txs) (txs ++ h.left) (select (is_pending (chosen_type rows)) rows)
                h.drawn
              ∙ ap (λ t. found (by_id T txs) (select (is_pending t) rows)) chosen in
            let same : length (select (is_pending (chosen_type rows)) rows) ≡ waiting rows =
              ap (λ t. found (is_pending t) rows) chosen in
            let some_of : length txs ≤ found (by_id T txs) (txs ++ h.left) = omega (
              arith,
              found-append (by_id T txs) txs h.left,
              found_every (by_id T txs) txs (by_id_self txs),
            ) in
            elim (Bool-cases (leb n (waiting rows))) [
              | inl many ↦
                  let all_asked : length txs ≡ n =
                    h.full (omega (arith, same, leb→le n (waiting rows) many)) in
                  omega (arith, all_asked, some_of, drawn, marked)
              | inr few ↦
                  let all_there : length txs
                      ≡ length (select (is_pending (chosen_type rows)) rows) =
                    h.complete (omega (arith, same, leb→ge n (waiting rows) few)) in
                  omega (arith, all_there, same, some_of, drawn, marked)
            ]
        | inr e ↦
            let none_there : transfers rows ≤ 0 = ltb→ge 0 (transfers rows) e in
            omega (arith, none_there, transfers-waiting rows, marked)
      ]

module _ (G : Tables) (n : ℕ) where
  -- A round hands the transactions that `PopTxs` returns to a batch that is not submitted, and changes
  -- nothing but the mempool.
  pub pick_batch-Handed :
      (db : Db G)
      → IsQuiet G.tx_table
      → (p : Popped) × (s : G.tx_table.Store) × (pick_batch G n db ≡ (ok tt, record db { txs = s }))
        × Handed G.tx_table n (G.tx_table.rows db.txs) (G.tx_table.rows s) p.txs
  unfolding pick_batch process_and_submit_batch process_tx submit_batch
  pick_batch-Handed db quiet =
      let (p, s, runs, clean, handed) = pop_txs-Handed G.tx_table n db.txs quiet in
      (p, s, rw runs refl, handed)

  -- That many rounds, one after the other.
  abbrev pub rounds : ℕ → Exec (Db G) (Unit {0})
  rounds zero = pure tt
  rounds (suc k) = do pick_batch G n; rounds k

  -- Where no statement fails, rounds of the aggregator return no error and change nothing but the
  -- mempool. After `k` rounds of `n` transactions at least `k * n` fewer transfers are pending than
  -- before, and none where there were no more; of the rows nothing but their status has changed.
  pub rounds-waiting :
      (k : ℕ) (db : Db G)
      → IsQuiet G.tx_table
      → (s : G.tx_table.Store) × (rounds k db ≡ (ok tt, record db { txs = s }))
        × (waiting (G.tx_table.rows s) ≤ waiting (G.tx_table.rows db.txs) - k * n)
        × (map (mark 0) (G.tx_table.rows s) ≡ map (mark 0) (G.tx_table.rows db.txs))
  rounds-waiting zero db quiet = (db.txs, refl, omega arith, refl)
  rounds-waiting (suc k) db quiet =
      let (p, s, runs, handed) = pick_batch-Handed db quiet in
      let (s', rest, fewer, kept) = rounds-waiting k (record db { txs = s }) quiet in
      let first : waiting (G.tx_table.rows s) ≤ waiting (G.tx_table.rows db.txs) - n =
        Handed-waiting G.tx_table n (G.tx_table.rows db.txs) (G.tx_table.rows s) p.txs handed in
      (
        s',
        rw (runs, rest) refl,
        omega (arith, fewer, first, suc-mul k n),
        kept
            ∙ ap (map (mark 0)) handed.marked
            ∙ marked_again (by_id G.tx_table p.txs) (G.tx_table.rows db.txs),
      )
