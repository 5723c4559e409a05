-- ===== src/Deposit/Finalise.antt =====
-- core/DepositTree.go: what `FinaliseDeposits` leaves of the state tree.
use reddit_commander.Prelude.{
  get_elem?-some, ℕ, zero, suc, ◌+◌, ◌≤◌, ◌<◌, ◌≡◌, ◌≢◌, refl, sym, ap, ◌∙◌, subst, List, [], ◌∷◌,
  map, get_elem?, length, select, arith, ok, some,
}
use reddit_commander.Bytes.{Str}
use reddit_commander.Constants.{status_active}
use reddit_commander.NodePath.{IsBits}
use reddit_commander.Merkle.{Crypto}
use reddit_commander.Gorm.{Table, IsQuiet}
use reddit_commander.State.{
  UserState, assign, update_path, create_account_hash, delete_pending_account,
}
use reddit_commander.State.Rows.{Rows, Node}
use reddit_commander.State.Update.{update_state-Updated}
use reddit_commander.State.Skeleton.{update_state-skeleton, skeleton}
use reddit_commander.Deposit.{finalise_account, finalise_loop}
use reddit_commander.Deposit.Sound.{
  Sound, Placed-same, Sound-delete, Node-delete, is_waiting, stays,
}

module _ (K : Crypto) (T : Table UserState) where
  -- The row as it goes into the tree.
  abbrev placed_at : UserState → Str → UserState
  placed_at acc node =
      create_account_hash K (update_path node (record acc { status = status_active }))

  abbrev pub filled_row : UserState → UserState → UserState
  filled_row acc r = assign K T acc.state_data (K.hash_string (K.keccak256 acc.state_data)) r

  -- What the finalisation of one account has made of the rows.
  pub record Filled (d : ℕ) (acc : UserState) (node : Str) (rows rows' : Rows) : Type 0 where
    pub sound : Sound K d rows'
    pub leaf : (r : UserState) → Node rows node r → Node rows' node (filled_row acc r)
    pub others :
        (q : Str) (r : UserState)
        → IsBits q
        → length q ≡ d
        → q ≢ node
        → Node rows q r
        → Node rows' q r

  -- Every node of the list is the path of a leaf, and none stands there twice.
  pub record Places (d : ℕ) (nodes : List Str) : Type 0 where
    pub leaves : (j : ℕ) (n : Str) → get_elem? nodes j ≡ some n → IsBits n × (length n ≡ d)
    pub distinct :
        (i j : ℕ) (n : Str) → get_elem? nodes i ≡ some n → get_elem? nodes j ≡ some n → i ≡ j

  -- What the accounts, from place `i` of the nodes on, have made of the rows.
  pub record Entered (d i : ℕ) (nodes : List Str) (accounts : List UserState) (rows rows' : Rows)
      : Type 0 where
    pub sound : Sound K d rows'
    pub entered :
        (j : ℕ) (acc : UserState) (n : Str) (r : UserState)
        → get_elem? accounts j ≡ some acc
        → get_elem? nodes (i + j) ≡ some n
        → Node rows n r
        → Node rows' n (filled_row acc r)
    pub others :
        (q : Str) (r : UserState)
        → IsBits q
        → length q ≡ d
        → ((j : ℕ) → i ≤ j → j < i + length accounts → get_elem? nodes j ≢ some q)
        → Node rows q r
        → Node rows' q r

  Entered-cons :
      (d i : ℕ) (nodes : List Str) (acc : UserState) (accounts : List UserState) (node : Str)
      (rows rows1 rows2 : Rows)
      → Places d nodes
      → get_elem? nodes i ≡ some node
      → Filled d acc node rows rows1
      → Entered d (i + 1) nodes accounts rows1 rows2
      → Entered d i nodes (acc ∷ accounts) rows rows2
  Entered-cons d i nodes acc accounts node rows rows1 rows2 places here filled rest = record {
    sound = rest.sound;
    entered = entered;
    others = λ q r bits len apart at.
        rest.others q r bits len (λ j le lt. apart j (omega arith) (omega arith))
          (filled.others q r bits len
            (λ e. apart i (omega arith) (omega arith) (here ∙ ap some (sym e))) at);
  }
    where
      entered :
          (j : ℕ) (a : UserState) (n : Str) (r : UserState)
          → get_elem? (acc ∷ accounts) j ≡ some a
          → get_elem? nodes (i + j) ≡ some n
          → Node rows n r
          → Node rows2 n (filled_row a r)
      entered zero a n r ea en at =
          let same_acc : acc ≡ a = cc in
          let there : get_elem? nodes i ≡ some n =
            subst (λ k. get_elem? nodes k ≡ some n) (omega arith) en in
          let same : node ≡ n = cc in
          let (bits, len) = places.leaves i n (here ∙ ap some same) in
          subst (λ x. Node rows2 n (filled_row x r)) same_acc
            (rest.others n (filled_row acc r) bits len
              (λ k le lt e. omega (arith, places.distinct i k n (here ∙ ap some same) e))
              (subst (λ m. Node rows1 m (filled_row acc r)) same
                (filled.leaf r (subst (λ m. Node rows m r) (sym same) at))))
      entered (suc j) a n r ea en at =
          let there : get_elem? nodes (i + 1 + j) ≡ some n =
            subst (λ k. get_elem? nodes k ≡ some n) (omega arith) en in
          let (bits, len) = places.leaves (i + suc j) n en in
          rest.entered j a n r ea there (
            filled.others n r bits len
              (λ e. omega (arith, places.distinct i (i + suc j) n (here ∙ ap some (sym e)) en)) at)

  module _ (quiet : IsQuiet T) where
    delete_pending_account-quiet :
        (id : ℕ) (s : T.Store)
        → delete_pending_account K T id s ≡ (ok tt, T.deleted (is_waiting id) s)
    unfolding delete_pending_account
    delete_pending_account-quiet id s = rw (T.delete_lem (is_waiting id) s, quiet s) refl

    finalise_account-Filled :
        (d : ℕ) (acc : UserState) (node : Str) (s : T.Store)
        → 0 < d
        → IsBits node
        → length node ≡ d
        → Sound K d (T.rows s)
        → (s' : T.Store) × (finalise_account K T acc node s ≡ (ok tt, s'))
          × Filled d acc node (T.rows s) (T.rows s')
    unfolding finalise_account update_path create_account_hash
    finalise_account-Filled d acc node s pos bits len sound =
        let (s1, runs, updated) =
          update_state-Updated K T quiet d (placed_at acc node) s pos bits len sound.tree
            sound.merkle in
        let sound1 : Sound K d (T.rows s1) = record {
          tree = updated.tree;
          merkle = updated.merkle;
          placed =
              Placed-same d (T.rows s) (T.rows s1)
                (ap (λ result. map skeleton (T.rows result.1)) (sym runs)
                  ∙ update_state-skeleton K T (placed_at acc node) s)
                sound.placed;
        } in
        let gone : T.rows (T.deleted (is_waiting acc.account_id) s1)
            ≡ select (stays acc.account_id) (T.rows s1) =
          T.rows-deleted (is_waiting acc.account_id) s1 in
        (
          T.deleted (is_waiting acc.account_id) s1,
          rw runs (delete_pending_account-quiet acc.account_id s1),
          record {
            sound =
                subst (Sound K d) (sym gone) (Sound-delete K d acc.account_id (T.rows s1) sound1);
            leaf = λ r at.
                subst (λ rows. Node rows node (filled_row acc r)) (sym gone)
                  (Node-delete K d acc.account_id node (T.rows s1) _ sound1 bits
                    (updated.leaf r at));
            others = λ q r q_bits q_len ne at.
                subst (λ rows. Node rows q r) (sym gone)
                  (Node-delete K d acc.account_id q (T.rows s1) r sound1 q_bits
                    (updated.others q r q_len ne at));
          },
        )

    -- The loop from account `i` with nodes enough returns, and puts every account left in its place.
    pub finalise_loop-Entered :
        (d i : ℕ) (nodes : List Str) (accounts : List UserState) (s : T.Store)
        → 0 < d
        → Places d nodes
        → i + length accounts ≤ length nodes
        → Sound K d (T.rows s)
        → (s' : T.Store) × (finalise_loop K T nodes i accounts s ≡ (ok tt, s'))
          × Entered d i nodes accounts (T.rows s) (T.rows s')
    unfolding finalise_loop
    finalise_loop-Entered d i nodes [] s pos places room sound = (
      s,
      refl,
      record {
        sound = sound;
        entered = λ j acc n r ea en at. cc;
        others = λ q r bits len apart at. at;
      },
    )
    finalise_loop-Entered d i nodes (acc ∷ accounts) s pos places room sound =
        let (node, here) = get_elem?-some nodes i (omega arith) in
        let (bits, len) = places.leaves i node here in
        let (s1, runs, filled) = finalise_account-Filled d acc node s pos bits len sound in
        let (s2, more, rest) =
          finalise_loop-Entered d (i + 1) nodes accounts s1 pos places (omega arith) filled.sound in
        (
          s2,
          rw (here, runs, more) refl,
          Entered-cons d i nodes acc accounts node (T.rows s) (T.rows s1) (T.rows s2) places here
              filled rest,
        )
