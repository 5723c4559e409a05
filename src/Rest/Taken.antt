-- ===== src/Rest/Taken.antt =====
-- rest/api.go, core/tx.go and aggregator/aggregator.go: the way of a posted transaction through the
-- mempool to the aggregator.
use reddit_commander.Prelude.{
  ℕ, ◌<◌, suc, take, if◌then◌else◌, ◌&&◌, ◌≡◌, refl, ap, ◌∙◌, List, [], ◌∷◌, ◌++◌, Bool, true, ◌||◌,
  Bool-cases, inl, inr, map, length, select, any, arith, ok, panic, ◌≢◌, list_eq, list_eq_refl,
  ◌==◌, lt→ltb,
}
use reddit_commander.Bytes.{Str, Slice}
use reddit_commander.Constants.{tx_status_processing, tx_status_pending, tx_transfer_type}
use reddit_commander.Merkle.{Crypto}
use reddit_commander.Gorm.{Exec, IsQuiet, Table, map_where, ◌>>◌}
use reddit_commander.Gorm.Select.{take_all}
use reddit_commander.Tx.{Tx, is_one_of, is_pending, mark}
use reddit_commander.Tx.Pop.{popped, chosen_type, by_id, pop_txs-quiet}
use reddit_commander.Aggregator.{pick_batch, process_and_submit_batch, process_tx, submit_batch}
use reddit_commander.Database.{Tables}
use reddit_commander.Rest.{Json, Write, Served, Request, on_db, tx_receiver_handler}
use reddit_commander.Rest.Received.{posted, read_as, tx_receiver_handler-Received}

is_one_of-any :
    (id : Str) (txs : List Tx)
    → is_one_of (map (λ tx. tx.id) txs) id ≡ any (λ tx. list_eq id tx.id) txs
is_one_of-any id [] = refl
is_one_of-any id (tx ∷ txs) = ap (λ b. list_eq id tx.id || b) (is_one_of-any id txs)

-- One more element that passes both tests.
any-select_last :
    {A : Type 0} (p q : A → Bool) (xs : List A) (a : A)
    → p a ≡ true
    → q a ≡ true
    → any q (select p (xs ++ a ∷ [])) ≡ true
any-select_last p q [] a h k = rw (h, k) refl
any-select_last p q (x ∷ xs) a h k = elim (Bool-cases (p x)) [
  | inl e ↦ rw e (ground (arith, any-select_last p q xs a h k))
  | inr e ↦ rw e (any-select_last p q xs a h k)
]

length-select_last :
    {A : Type 0} (p : A → Bool) (xs : List A) (a : A)
    → p a ≡ true
    → length (select p (xs ++ a ∷ [])) ≡ suc (length (select p xs))
length-select_last p [] a h = rw h refl
length-select_last p (x ∷ xs) a h = elim (Bool-cases (p x)) [
  | inl e ↦ rw e (ap suc (length-select_last p xs a h))
  | inr e ↦ rw e (length-select_last p xs a h)
]

map_where_last :
    {A : Type 0} (p : A → Bool) (f : A → A) (xs : List A) (a : A)
    → p a ≡ true
    → map_where p f (xs ++ a ∷ []) ≡ map_where p f xs ++ f a ∷ []
map_where_last p f [] a h = rw h refl
map_where_last p f (x ∷ xs) a h =
    ap (λ ys. (if p x then f x else x) ∷ ys) (map_where_last p f xs a h)

abbrev pub waiting_transfers : List Tx → ℕ
waiting_transfers rows = length (select (is_pending tx_transfer_type) rows)

module _ (T : Table Tx) (rows : List Tx) (tx : Tx) (h : is_pending tx_transfer_type tx ≡ true) where
  chosen_type_lem : chosen_type (rows ++ tx ∷ []) ≡ tx_transfer_type
  chosen_type_lem =
      let counted : Tx → Bool =
        λ row. row.tx_type == tx_transfer_type && row.status == tx_status_pending in
      let e : length (select counted (rows ++ tx ∷ [])) ≡ suc (length (select counted rows)) =
        length-select_last counted rows tx (ground (arith, h)) in
      rw (e, lt→ltb 0 (suc (length (select counted rows))) (omega arith)) refl

  -- A pending transfer is handed out where there is room for all of them.
  popped_last :
      (n : ℕ) → waiting_transfers rows < n → by_id T (popped T n (rows ++ tx ∷ [])) tx ≡ true
  popped_last n room =
      let key : Tx → ℕ = λ tx. tx.created_at in
      let wanted : List Tx = select (is_pending tx_transfer_type) (rows ++ tx ∷ []) in
      let all : take n (T.ordered key wanted) ≡ T.ordered key wanted =
        take_all n (T.ordered key wanted) (
          omega (
            arith,
            T.length-ordered key wanted,
            length-select_last (is_pending tx_transfer_type) rows tx h,
            room,
          )) in
      rw (chosen_type_lem, all)
        (is_one_of-any tx.id (T.ordered key wanted)
          ∙ T.any-ordered (λ row. list_eq tx.id row.id) key wanted
          ∙ any-select_last (is_pending tx_transfer_type) (λ row. list_eq tx.id row.id) rows tx h
              (list_eq_refl tx.id))

module _ (J : Json) (G : Tables) (K : Crypto) (rlp_encode : Tx → Slice) (uuid : Str) (now : ℕ) where
  -- A transfer is posted, and then the aggregator's next round takes place.
  abbrev pub serve_round : Request → ℕ → Exec (Served G) (Unit {0})
  serve_round request n = do
    tx_receiver_handler J G K rlp_encode uuid now request
    on_db J G (pick_batch G n)

  -- Where the mempool's statements do not fail, the row can be written as JSON and a round takes more
  -- transactions than there are pending transfers: the transfer that a user posts is taken by the
  -- aggregator's next round, which leaves its row, with the columns of the request, marked as
  -- processing. Of the other rows of the mempool those that are taken with it are marked too; they
  -- are otherwise as before, and so is every other table.
  pub serve_round-Taken :
      (request : Request) (out : Slice) (n : ℕ) (v : Served G)
      → IsQuiet G.tx_table
      → request ≢ panic
      → J.marshal_tx (posted K rlp_encode uuid now (read_as J request).0) ≡ ok out
      → waiting_transfers (G.tx_table.rows v.db.txs) < n
      → (s : G.tx_table.Store) × (writes : List Write) × (txs : List Tx) × (serve_round request n v
          ≡ (ok tt, record { db = record v.db { txs = s }; written = writes }))
        × (G.tx_table.rows s
            ≡ map_where
                (by_id G.tx_table txs)
                (mark tx_status_processing)
                (G.tx_table.rows v.db.txs)
              ++ mark tx_status_processing (posted K rlp_encode uuid now (read_as J request).0)
                ∷ [])
  unfolding pick_batch process_and_submit_batch process_tx submit_batch
  serve_round-Taken request out n v quiet readable made room =
      let entered : Tx = posted K rlp_encode uuid now (read_as J request).0 in
      let before : List Tx = G.tx_table.rows v.db.txs in
      let (s, received, row) =
        tx_receiver_handler-Received J G K rlp_encode uuid now request out v quiet readable made in
      let (s', runs, marked) = pop_txs-quiet G.tx_table n s quiet in
      let txs : List Tx = popped G.tx_table n (before ++ entered ∷ []) in
      let same : popped G.tx_table n (G.tx_table.rows s) ≡ txs = ap (popped G.tx_table n) row in
      (
        s',
        v.written ++ (read_as J request).1 ++ Write.content_type_json ∷ Write.body out ∷ [],
        txs,
        rw (received, runs) refl,
        marked
            ∙ (rw (same, row)
                (map_where_last (by_id G.tx_table txs) (mark tx_status_processing) before entered
                  (popped_last G.tx_table before entered refl n room))),
      )
