-- ===== src/Deposit/Calls.antt =====
-- core/DepositTree.go: the calls on the whole database, whichever statements fail.
use reddit_commander.Prelude.{ℕ, List, or_panic, get_elem?}
use reddit_commander.Bytes.{Str, ByteArray, to_string}
use reddit_commander.Merkle.{Crypto}
use reddit_commander.Gorm.{Exec, lift, ◌>>=◌}
use reddit_commander.Gorm.Keeps.{Preorder, Keeps, Keeps-bind}
use reddit_commander.State.{UserState, get_root, get_siblings, get_deposit_sub_tree_root}
use reddit_commander.State.Rows.{Rows}
use reddit_commander.Params.{get_params}
use reddit_commander.Database.{Tables, Db, on_states, on_params}
use reddit_commander.Deposit.{
  default_hashes, minus_uint64, get_deposit_node_and_siblings, finalise_deposits,
  finalise_deposits_and_add_batch,
}
use reddit_commander.Deposit.Closed.{
  Closed, Over, Over-Preorder, finalise_at-Keeps, get_root-Keeps, get_siblings-Keeps,
  get_deposit_sub_tree_root-Keeps,
}

module _ (K : Crypto) (G : Tables) (R : Rows → Rows → Type 0)
    (closed : Closed K G.state_table R) where
  abbrev pub OverDb : Db G → Db G → Type 0
  OverDb db db' = Over K G.state_table R closed db.states db'.states

  pub OverDb-Preorder : Preorder OverDb
  OverDb-Preorder = record {
    stay = λ db. (Over-Preorder K G.state_table R closed).stay db.states;
    trans = λ a b c. (Over-Preorder K G.state_table R closed).trans a.states b.states c.states;
  }

  pub OverDb-bind {ℓ κ} :
      {A : Type ℓ} {B : Type κ} (m : Exec (Db G) A) (f : A → Exec (Db G) B)
      → Keeps OverDb m
      → ((a : A) → Keeps OverDb (f a))
      → Keeps OverDb (m >>= f)
  OverDb-bind = Keeps-bind OverDb OverDb-Preorder

  pub get_deposit_node_and_siblings-Keeps : Keeps OverDb (get_deposit_node_and_siblings K G)
  unfolding get_deposit_node_and_siblings
  get_deposit_node_and_siblings-Keeps =
      OverDb-bind {B = UserState × List UserState} (on_params G (get_params G.params_table)) _
        OverDb-Preorder.stay
        λ params.
          OverDb-bind {B = UserState × List UserState} (lift (default_hashes K)) _
            OverDb-Preorder.stay
            λ hashes.
              OverDb-bind {B = UserState × List UserState}
                (lift (or_panic (get_elem? hashes params.max_deposit_sub_tree_height))) _
                OverDb-Preorder.stay
                λ hash.
                  OverDb-bind {B = UserState × List UserState}
                    (on_states G (
                      get_deposit_sub_tree_root K G.state_table (to_string hash)
                        (minus_uint64 params.max_depth params.max_deposit_sub_tree_height)))
                    _
                    (λ db.
                      get_deposit_sub_tree_root-Keeps K G.state_table R closed (to_string hash) _
                        db.states)
                    λ node.
                      OverDb-bind {B = UserState × List UserState}
                        (on_states G (get_siblings K G.state_table node.path)) _
                        (λ db. get_siblings-Keeps K G.state_table R closed node.path db.states)
                        λ siblings. OverDb-Preorder.stay

  pub finalise_deposits-Keeps :
      (path : ℕ) (root : ByteArray) → Keeps OverDb (finalise_deposits K G path root)
  unfolding finalise_deposits
  finalise_deposits-Keeps path root =
      OverDb-bind {B = Unit {0}} (on_params G (get_params G.params_table)) _ OverDb-Preorder.stay
        λ params db. finalise_at-Keeps K G.state_table R closed path root params.max_depth db.states

  pub finalise_deposits_and_add_batch-Keeps :
      (root : ByteArray) (path : ℕ) → Keeps OverDb (finalise_deposits_and_add_batch K G root path)
  unfolding finalise_deposits_and_add_batch
  finalise_deposits_and_add_batch-Keeps root path =
      OverDb-bind {B = Str} (finalise_deposits K G path root) _ (finalise_deposits-Keeps path root)
        λ done.
          OverDb-bind {B = Str} (on_states G (get_root K G.state_table)) _
            (λ db. get_root-Keeps K G.state_table R closed db.states) λ found. OverDb-Preorder.stay
