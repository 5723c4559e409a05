-- ===== src/Tx/Pop.antt =====
-- core/tx.go: what `PopTxs` returns and leaves in the mempool.
use reddit_commander.Prelude.{
  ltb, db_fault, failure_of, ℕ, ◌≤◌, ◌≡◌, refl, sym, ◌∙◌, subst, Bool, ◌&&◌, Bool-cases, inl, inr,
  Option, none, some, List, ◌++◌, Perm, map, length, take, drop, select, arith, Outcome, Error, ok,
  err, panic, ◌==◌, if◌then◌else◌,
}
use reddit_commander.Constants.{tx_transfer_type, tx_status_pending, tx_status_processing}
use reddit_commander.Gorm.{Table, IsQuiet, IsAscending, map_where, count}
use reddit_commander.Gorm.Counted.{take-append-drop, length-take_full}
use reddit_commander.Gorm.Select.{length-take_all}
use reddit_commander.Tx.{
  type_or_zero, Tx, Popped, is_one_of, is_pending, mark, get_count_per_tx_type, fetch_tx_type,
  fetch_tx_type_loop, pop_commit, pop_mark, pop_begun, pop_txs,
}

-- Where a failure is returned, the table's rows are these.
abbrev Kept : (T : Table Tx) → List Tx → Outcome Popped × T.Store → Type 0
Kept T rows result =
    (p : Popped) (e : Error) → result.0 ≡ ok p → p.failure ≡ some e → T.rows result.1 ≡ rows

abbrev pub transfers : List Tx → ℕ
transfers rows =
    length (select (λ row. row.tx_type == tx_transfer_type && row.status == tx_status_pending) rows)

abbrev pub chosen_type : List Tx → ℕ
chosen_type rows = if ltb 0 (transfers rows) then tx_transfer_type else 0

module _ (T : Table Tx) where
  abbrev pub oldest : ℕ → ℕ → List Tx → List Tx
  oldest n tx_type rows =
      take n (T.ordered (λ tx. tx.created_at) (select (is_pending tx_type) rows))

  abbrev pub popped : ℕ → List Tx → List Tx
  popped n rows = oldest n (chosen_type rows) rows

  pop_commit-Kept :
      (before s : T.Store) (failed : Option Error) (pending_txs : List Tx)
      → Kept T (T.rows before) (pop_commit T before failed pending_txs s)
  unfolding pop_commit
  pop_commit-Kept before s (some e) pending_txs = λ p e' made failure. T.rows-undone before s
  pop_commit-Kept before s none pending_txs = elim (Bool-cases (T.fault s)) [
    | inl f ↦ rw (T.commit_lem before s, f) λ p e made failure. T.rows-undone before s
    | inr f ↦ rw (T.commit_lem before s, f) λ p e made failure. cc
  ]

  pop_mark-Kept :
      (before s : T.Store) (failed : Option Error) (found : Outcome (List Tx))
      → Kept T (T.rows before) (pop_mark T before failed found s)
  unfolding pop_mark
  pop_mark-Kept before s failed (err e) = λ p e' made failure. T.rows-undone before s
  pop_mark-Kept before s failed panic = λ p e' made failure. T.rows-undone before s
  pop_mark-Kept before s failed (ok txs) = elim (Bool-cases (T.fault s)) [
    | inl f ↦ rw (T.update_lem _ _ s, f) (pop_commit-Kept before (T.tick s) failed txs)
    | inr f ↦ rw (T.update_lem _ _ s, f) (pop_commit-Kept before (T.updated _ _ s) failed txs)
  ]

  pop_begun-Kept :
      (n : ℕ) (fetched : Outcome ℕ) (began : Outcome (Unit {0})) (s : T.Store)
      → Kept T (T.rows s) (pop_begun T n fetched began s)
  unfolding pop_begun
  pop_begun-Kept n fetched (err e) s = λ p e' made failure. refl
  pop_begun-Kept n fetched panic s = λ p e' made failure. refl
  pop_begun-Kept n fetched (ok began) s = elim (Bool-cases (T.fault s)) [
    | inl f ↦
        rw (T.find_ordered_lem _ _ _ s, f)
          (pop_mark-Kept s (T.tick s) (failure_of fetched) (err db_fault))
    | inr f ↦
        rw (T.find_ordered_lem _ _ _ s, f)
          (pop_mark-Kept s (T.tick s) (failure_of fetched)
            (ok (oldest n (type_or_zero fetched) (T.rows s))))
  ]

  -- `FetchTxType`: transfers, where there are pending ones.
  fetch_tx_type_lem :
      (s : T.Store)
      → fetch_tx_type T s
        ≡ (if T.fault s then err db_fault else ok (chosen_type (T.rows s)), T.tick s)
  unfolding fetch_tx_type fetch_tx_type_loop get_count_per_tx_type count
  fetch_tx_type_lem s = elim (Bool-cases (T.fault s)) [
    | inl f ↦ rw (T.find_all_lem _ s, f) refl
    | inr f ↦ elim (Bool-cases (ltb 0 (transfers (T.rows s)))) [
      | inl g ↦ rw (T.find_all_lem _ s, f, g) refl
      | inr g ↦ rw (T.find_all_lem _ s, f, g) refl
    ]
  ]

  abbrev Fetched : T.Store → Outcome ℕ
  Fetched s = if T.fault s then err db_fault else ok (chosen_type (T.rows s))

  abbrev Begun : ℕ → Outcome ℕ → T.Store → Outcome Popped × T.Store
  Begun n fetched s = pop_begun T n fetched (if T.fault s then err db_fault else ok tt) (T.tick s)

  pop_txs_step : (n : ℕ) (s : T.Store) → pop_txs T n s ≡ Begun n (Fetched s) (T.tick s)
  unfolding pop_txs
  pop_txs_step n s = elim (Bool-cases (T.fault s)) [
    | inl f ↦ elim (Bool-cases (T.fault (T.tick s))) [
      | inl g ↦ rw (fetch_tx_type_lem s, f, T.begin_lem (T.tick s), g) refl
      | inr g ↦ rw (fetch_tx_type_lem s, f, T.begin_lem (T.tick s), g) refl
    ]
    | inr f ↦ elim (Bool-cases (T.fault (T.tick s))) [
      | inl g ↦ rw (fetch_tx_type_lem s, f, T.begin_lem (T.tick s), g) refl
      | inr g ↦ rw (fetch_tx_type_lem s, f, T.begin_lem (T.tick s), g) refl
    ]
  ]

  -- Whatever statements fail: where `PopTxs` returns an error, the mempool's rows are those from
  -- before the call.
  pub pop_txs-Kept :
      (n : ℕ) (s : T.Store) (p : Popped) (e : Error)
      → (pop_txs T n s).0 ≡ ok p
      → p.failure ≡ some e
      → T.rows (pop_txs T n s).1 ≡ T.rows s
  pop_txs-Kept n s =
      subst (λ result. Kept T (T.rows s) result) (sym (pop_txs_step n s))
        (subst (λ rows. Kept T rows (Begun n (Fetched s) (T.tick s)))
          (T.rows-tick (T.tick s) ∙ T.rows-tick s)
          (pop_begun-Kept n (Fetched s) (if T.fault (T.tick s) then err db_fault else ok tt)
            (T.tick (T.tick s))))

  abbrev pub by_id : List Tx → Tx → Bool
  by_id txs row = is_one_of (map (λ tx. tx.id) txs) row.id

  pop_mark-quiet :
      (before s : T.Store) (txs : List Tx)
      → IsQuiet T
      → (s' : T.Store) × (pop_mark T before none (ok txs) s
          ≡ (ok (record { txs = txs; failure = none }), s'))
        × (T.rows s' ≡ map_where (by_id txs) (mark tx_status_processing) (T.rows s))
  unfolding pop_mark pop_commit
  pop_mark-quiet before s txs q =
      let marked : T.Store = T.updated (by_id txs) (mark tx_status_processing) s in
      (
        T.tick marked,
        rw
            (
              T.update_lem (by_id txs) (mark tx_status_processing) s,
              q s,
              T.commit_lem before marked,
              q marked,
            )
            refl,
        T.rows-tick marked ∙ T.rows-updated (by_id txs) (mark tx_status_processing) s,
      )

  pop_begun-quiet :
      (n tx_type : ℕ) (s : T.Store)
      → IsQuiet T
      → pop_begun T n (ok tx_type) (ok tt) s
        ≡ pop_mark T s none (ok (oldest n tx_type (T.rows s))) (T.tick s)
  unfolding pop_begun
  pop_begun-quiet n tx_type s q =
      rw (T.find_ordered_lem n (λ tx. tx.created_at) (is_pending tx_type) s, q s) refl

  -- Where no statement fails `PopTxs` returns the oldest pending transactions of the type that it
  -- chose, and marks the rows with their ids.
  pub pop_txs-quiet :
      (n : ℕ) (s : T.Store)
      → IsQuiet T
      → (s' : T.Store) × (pop_txs T n s
          ≡ (ok (record { txs = popped n (T.rows s); failure = none }), s'))
        × (T.rows s'
            ≡ map_where (by_id (popped n (T.rows s))) (mark tx_status_processing) (T.rows s))
  pop_txs-quiet n s q =
      let s2 : T.Store = T.tick (T.tick s) in
      let same : T.rows s2 ≡ T.rows s = T.rows-tick (T.tick s) ∙ T.rows-tick s in
      let (s', runs, marked) =
        pop_mark-quiet s2 (T.tick s2) (oldest n (chosen_type (T.rows s)) (T.rows s2)) q in
      (
        s',
        rw (pop_txs_step n s, q s, q (T.tick s), pop_begun-quiet n (chosen_type (T.rows s)) s2 q)
            (runs ∙ rw same refl),
        marked ∙ rw (T.rows-tick s2, same) refl,
      )

  -- What `PopTxs` promises about the transactions that it returns and the mempool after it.
  pub record Handed (n : ℕ) (rows rows' : List Tx) (txs : List Tx) : Type 0 where
    -- the pending rows of the chosen type are those that are returned and those that are left
    pub left : List Tx
    pub drawn : Perm (txs ++ left) (select (is_pending (chosen_type rows)) rows)
    -- the oldest ones are returned, in their order
    pub in_order : IsAscending (λ tx. tx.created_at) (txs ++ left)
    -- as many as asked for, or all
    pub full : n ≤ length (select (is_pending (chosen_type rows)) rows) → length txs ≡ n
    pub complete :
        length (select (is_pending (chosen_type rows)) rows) ≤ n
        → length txs ≡ length (select (is_pending (chosen_type rows)) rows)
    -- the rows with their ids, and no others, are marked
    pub marked : rows' ≡ map_where (by_id txs) (mark tx_status_processing) rows

  Handed-popped :
      (n : ℕ) (rows rows' : List Tx)
      → rows' ≡ map_where (by_id (popped n rows)) (mark tx_status_processing) rows
      → Handed n rows rows' (popped n rows)
  Handed-popped n rows rows' e =
      let key : Tx → ℕ = λ tx. tx.created_at in
      let wanted : List Tx = select (is_pending (chosen_type rows)) rows in
      let line : List Tx = T.ordered key wanted in
      let whole : line ≡ popped n rows ++ drop n line = sym (take-append-drop n line) in
      record {
        left = drop n line;
        drawn = subst (λ xs. Perm xs wanted) whole (T.ordered-Perm key wanted);
        in_order = subst (IsAscending key) whole (T.ordered-IsAscending key wanted);
        full = λ many. length-take_full n line (omega (arith, many, T.length-ordered key wanted));
        complete = λ room. length-take_all n line wanted (T.length-ordered key wanted) room;
        marked = e;
      }

  -- Where no statement fails `PopTxs` returns no error. The pending rows of the type that it chose are,
  -- in some order, those that it returns and those that it leaves: it returns as many as asked for, or
  -- all where there are no more, and none of those left is older than one that is returned. After the
  -- call the rows with the ids of those returned are marked as processing, and nothing else changes.
  pub pop_txs-Handed :
      (n : ℕ) (s : T.Store)
      → IsQuiet T
      → (p : Popped) × (s' : T.Store) × (pop_txs T n s ≡ (ok p, s'))
        × (p.failure ≡ none)
        × Handed n (T.rows s) (T.rows s') p.txs
  pop_txs-Handed n s q =
      let (s', runs, marked) = pop_txs-quiet n s q in
      (
        record { txs = popped n (T.rows s); failure = none },
        s',
        runs,
        refl,
        Handed-popped n (T.rows s) (T.rows s') marked,
      )
