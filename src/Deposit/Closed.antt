-- ===== src/Deposit/Closed.antt =====
-- core/DepositTree.go and core/state.go: relations on the rows that every call on the state table
-- moves along, whichever statements fail.
use reddit_commander.Prelude.{
  ℕ, ◌+◌, ◌≡◌, refl, sym, ap, subst, Bool, Bool-cases, inl, inr, List, [], ◌∷◌, ◌++◌, map, select,
  Outcome, ok, err, panic, record_not_found, ◌==◌, get_elem?, or_panic,
}
use reddit_commander.Bytes.{Str, Slice, ByteArray, to_string}
use reddit_commander.Constants.{status_pending}
use reddit_commander.NodePath.{solidity_path_to_node_path}
use reddit_commander.Merkle.{Crypto}
use reddit_commander.Gorm.{Table, lift, map_where}
use reddit_commander.Gorm.Keeps.{Preorder, Keeps, Keeps-bind}
use reddit_commander.State.{
  UserState, new_pending_user_state, add_new_pending_account, attach_deposit_info, update_state,
  get_root, delete_pending_account, get_pending_acc_by_deposit_root, get_siblings,
  get_deposit_sub_tree_root, blank_unless_not_found,
}
use reddit_commander.State.Rows.{Rows}
use reddit_commander.State.Skeleton.{
  skeleton, update_state-skeleton, get_siblings-skeleton, as_not_found-state,
}
use reddit_commander.Deposit.{
  empty_paths, get_all_terminal_nodes, is_terminal_under, finalise_account, finalise_loop,
  finalise_at, minus_uint64,
}
use reddit_commander.Deposit.Sound.{stays, is_waiting}

abbrev pub is_pending : UserState → Bool
is_pending row = row.status == status_pending

abbrev pub attach : Table UserState → ByteArray → UserState → UserState
attach T root row = record row {
  created_by_deposit_sub_tree = T.overwrite (to_string root) row.created_by_deposit_sub_tree;
}

-- A relation along which each kind of write moves the rows.
pub record Closed (K : Crypto) (T : Table UserState) (R : Rows → Rows → Type 0) : Type 0 where
  pub trans : (xs ys zs : Rows) → R xs ys → R ys zs → R xs zs
  -- new data and hashes
  pub rewritten : (xs ys : Rows) → map skeleton ys ≡ map skeleton xs → R xs ys
  -- a deposit that is no longer pending
  pub deleted : (id : ℕ) (xs : Rows) → R xs (select (stays id) xs)
  -- a new deposit
  pub queued :
      (id : ℕ) (payload : Slice) (xs : Rows) → R xs (xs ++ new_pending_user_state K id payload ∷ [])
  -- the root of the subtree of the pending deposits
  pub attached : (root : ByteArray) (xs : Rows) → R xs (map_where is_pending (attach T root) xs)

module _ (K : Crypto) (T : Table UserState) (R : Rows → Rows → Type 0) (closed : Closed K T R) where
  abbrev pub Over : T.Store → T.Store → Type 0
  Over s s' = R (T.rows s) (T.rows s')

  pub Over-Preorder : Preorder Over
  Over-Preorder = record {
    stay = λ s. closed.rewritten (T.rows s) (T.rows s) refl;
    trans = λ s t u. closed.trans (T.rows s) (T.rows t) (T.rows u);
  }

  moved : (s s' : T.Store) (xs : Rows) → T.rows s' ≡ xs → R (T.rows s) xs → Over s s'
  moved s s' xs e h = subst (R (T.rows s)) (sym e) h

  ticked : (s : T.Store) → Over s (T.tick s)
  ticked s = closed.rewritten (T.rows s) (T.rows (T.tick s)) (ap (map skeleton) (T.rows-tick s))

  pub find_all-Keeps : (p : UserState → Bool) → Keeps Over (T.find_all p)
  find_all-Keeps p s = rw (T.find_all_lem p s) (ticked s)

  pub find_one-Keeps : (p : UserState → Bool) → Keeps Over (T.find_one p)
  find_one-Keeps p s = rw (T.find_one_lem p s) (ticked s)

  pub update_state-Keeps : (account : UserState) → Keeps Over (update_state K T account)
  update_state-Keeps account s = closed.rewritten _ _ (update_state-skeleton K T account s)

  pub get_siblings-Keeps : (path : Str) → Keeps Over (get_siblings K T path)
  get_siblings-Keeps path s = closed.rewritten _ _ (get_siblings-skeleton K T path s)

  pub get_root-Keeps : Keeps Over (get_root K T)
  unfolding get_root
  get_root-Keeps s =
      subst (Over s) (sym (as_not_found-state K T (T.find_one (λ row. row.level == 0) s)))
        (find_one-Keeps (λ row. row.level == 0) s)

  blank_unless-state : (x : Outcome UserState × T.Store) → (blank_unless_not_found x).1 ≡ x.1
  blank_unless-state (ok a, s) = refl
  blank_unless-state (err e, s) = elim e as (λ e. (blank_unless_not_found (err e, s)).1 ≡ s) [
    | record_not_found ↦ refl
    | _ ↦ refl
  ]
  blank_unless-state (panic, s) = refl

  pub get_deposit_sub_tree_root-Keeps :
      (hash : Str) (level : ℕ) → Keeps Over (get_deposit_sub_tree_root K T hash level)
  unfolding get_deposit_sub_tree_root
  get_deposit_sub_tree_root-Keeps hash level s =
      subst (Over s) (sym (blank_unless-state (T.find_one _ s))) (find_one-Keeps _ s)

  pub add_new_pending_account-Keeps :
      (id : ℕ) (payload : Slice)
      → Keeps Over (add_new_pending_account K T (new_pending_user_state K id payload))
  unfolding add_new_pending_account
  add_new_pending_account-Keeps id payload s = elim (Bool-cases (T.fault s)) [
    | inl f ↦ rw (T.insert_lem _ s, f) (ticked s)
    | inr f ↦
        rw (T.insert_lem _ s, f)
          (moved s _ _ (T.rows-inserted _ s) (closed.queued id payload (T.rows s)))
  ]

  pub attach_deposit_info-Keeps : (root : ByteArray) → Keeps Over (attach_deposit_info K T root)
  unfolding attach_deposit_info
  attach_deposit_info-Keeps root s = elim (Bool-cases (T.fault s)) [
    | inl f ↦ rw (T.update_lem _ _ s, f) (ticked s)
    | inr f ↦
        rw (T.update_lem _ _ s, f)
          (moved s _ _ (T.rows-updated is_pending (attach T root) s)
            (closed.attached root (T.rows s)))
  ]

  delete_lem : (id : ℕ) (s : T.Store) → Over s (T.delete (is_waiting id) s).1
  delete_lem id s = elim (Bool-cases (T.fault s)) [
    | inl f ↦ rw (T.delete_lem (is_waiting id) s, f) (ticked s)
    | inr f ↦
        rw (T.delete_lem (is_waiting id) s, f)
          (moved s _ _ (T.rows-deleted (is_waiting id) s) (closed.deleted id (T.rows s)))
  ]

  pub delete_pending_account-Keeps : (id : ℕ) → Keeps Over (delete_pending_account K T id)
  unfolding delete_pending_account
  delete_pending_account-Keeps id s =
      subst (Over s) (sym (as_not_found-state K T (T.delete (is_waiting id) s))) (delete_lem id s)

  lift-Keeps {ℓ} : {A : Type ℓ} (r : Outcome A) → Keeps Over (lift r)
  lift-Keeps r = Over-Preorder.stay

  finalise_account-Keeps :
      (acc : UserState) (node : Str) → Keeps Over (finalise_account K T acc node)
  unfolding finalise_account
  finalise_account-Keeps acc node =
      Keeps-bind Over Over-Preorder {B = Unit {0}} _ _ (update_state-Keeps _)
        (λ done. delete_pending_account-Keeps acc.account_id)

  finalise_loop-Keeps :
      (nodes : List Str) (i : ℕ) (accounts : List UserState)
      → Keeps Over (finalise_loop K T nodes i accounts)
  unfolding finalise_loop
  finalise_loop-Keeps nodes i [] = Over-Preorder.stay
  finalise_loop-Keeps nodes i (acc ∷ accounts) =
      Keeps-bind Over Over-Preorder {B = Unit {0}} (lift (or_panic (get_elem? nodes i))) _
        (lift-Keeps (or_panic (get_elem? nodes i)))
        λ node.
          Keeps-bind Over Over-Preorder {B = Unit {0}} (finalise_account K T acc node) _
            (finalise_account-Keeps acc node) λ done. finalise_loop-Keeps nodes (i + 1) accounts

  get_all_terminal_nodes-Keeps : (under : Str) → Keeps Over (get_all_terminal_nodes K T under)
  unfolding get_all_terminal_nodes
  get_all_terminal_nodes-Keeps under =
      Keeps-bind Over Over-Preorder {B = List Str} (T.find_all (is_terminal_under under)) _
        (find_all-Keeps (is_terminal_under under)) λ found. lift-Keeps (empty_paths found)

  pub finalise_at-Keeps :
      (path : ℕ) (root : ByteArray) (depth : ℕ) → Keeps Over (finalise_at K T path root depth)
  unfolding finalise_at get_pending_acc_by_deposit_root
  finalise_at-Keeps path root depth =
      Keeps-bind Over Over-Preorder {B = Unit {0}} (get_pending_acc_by_deposit_root K T root) _
        (find_all-Keeps _)
        λ accounts.
          Keeps-bind Over Over-Preorder {B = Unit {0}}
            (lift (solidity_path_to_node_path path (minus_uint64 depth 1))) _
            (lift-Keeps (solidity_path_to_node_path path (minus_uint64 depth 1)))
            λ under.
              Keeps-bind Over Over-Preorder {B = Unit {0}} (get_all_terminal_nodes K T under) _
                (get_all_terminal_nodes-Keeps under) λ nodes. finalise_loop-Keeps nodes 0 accounts
