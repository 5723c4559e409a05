-- ===== src/State/Skeleton.antt =====
-- core/state.go: what `UpdateState` never writes, whichever statements fail.
use reddit_commander.Prelude.{
  ℕ, zero, suc, ◌+◌, ◌≡◌, refl, ap, ◌∙◌, Bool, true, false, Bool-cases, inl, inr, List, [], ◌∷◌,
  map, length, Outcome, ok, err, panic,
}
use reddit_commander.Bytes.{Str, ByteArray}
use reddit_commander.NodePath.{get_other_child, get_parent_path, get_nth_bit_from_right}
use reddit_commander.Merkle.{Crypto, get_parent}
use reddit_commander.Gorm.{Exec, Table, lift, continue, ◌>>=◌, map_where}
use reddit_commander.State.{
  UserState, assign, as_not_found, has_path, get_state_by_path, update_account, get_siblings,
  get_siblings_loop, update_parent_with_hash, update_root_node_hashes, store_node, store_pair,
  store_leaf_loop, store_leaf, update_state, create_account_hash, hash_to_byte_array,
}

-- A row without its data and its hash.
abbrev pub skeleton : UserState → UserState
skeleton row = record row { state_data = []; hash = [] }

map_where-skeleton :
    (p : UserState → Bool) (f : UserState → UserState) (xs : List UserState)
    → ((x : UserState) → skeleton (f x) ≡ skeleton x)
    → map skeleton (map_where p f xs) ≡ map skeleton xs
map_where-skeleton p f [] keeps = refl
map_where-skeleton p f (x ∷ xs) keeps = elim (Bool-cases (p x)) [
  | inl e ↦ rw (e, keeps x) (ap (λ ys. skeleton x ∷ ys) (map_where-skeleton p f xs keeps))
  | inr e ↦ rw e (ap (λ ys. skeleton x ∷ ys) (map_where-skeleton p f xs keeps))
]

module _ (K : Crypto) (T : Table UserState) where
  -- The rows are the same but for their data and hashes.
  abbrev pub Same : T.Store → T.Store → Type 0
  Same s s' = map skeleton (T.rows s') ≡ map skeleton (T.rows s)

  Same-continue {ℓ κ} :
      {A : Type ℓ} {B : Type κ} (s s' : T.Store) (r : Outcome A) (f : A → Exec T.Store B)
      → Same s s'
      → ((a : A) → Same s' (f a s').1)
      → Same s (continue r f s').1
  Same-continue s s' (ok a) f h k = k a ∙ h
  Same-continue s s' (err e) f h k = h
  Same-continue s s' panic f h k = h

  Same-bind {ℓ κ} :
      {A : Type ℓ} {B : Type κ} (m : Exec T.Store A) (s : T.Store) (f : A → Exec T.Store B)
      → Same s (m s).1
      → ((a : A) → Same (m s).1 (f a (m s).1).1)
      → Same s ((m >>= f) s).1
  Same-bind m s f h k = Same-continue s (m s).1 (m s).0 f h k

  update_account-skeleton :
      (acc : UserState) (path : Str) (s : T.Store) → Same s (update_account K T acc path s).1
  unfolding update_account
  update_account-skeleton acc path s = elim (Bool-cases (T.fault s)) [
    | inl f ↦ rw (T.update_lem _ _ s, f) (ap (map skeleton) (T.rows-tick s))
    | inr f ↦
        rw (T.update_lem _ _ s, f)
          (ap (map skeleton) (T.rows-updated _ _ s)
            ∙ map_where-skeleton (has_path path) (assign K T acc.state_data acc.hash) (T.rows s)
                (λ x. refl))
  ]

  pub as_not_found-state : {A : Type 0} (x : Outcome A × T.Store) → (as_not_found x).1 ≡ x.1
  as_not_found-state (ok a, s) = refl
  as_not_found-state (err e, s) = refl
  as_not_found-state (panic, s) = refl

  pub get_state_by_path-skeleton :
      (path : Str) (s : T.Store) → Same s (get_state_by_path K T path s).1
  unfolding get_state_by_path
  get_state_by_path-skeleton path s =
      ap (λ s'. map skeleton (T.rows s')) (as_not_found-state (T.find_one (has_path path) s))
      ∙ rw (T.find_one_lem (has_path path) s) (ap (map skeleton) (T.rows-tick s))

  get_siblings_loop-skeleton :
      (rounds : ℕ) (path : Str) (s : T.Store) → Same s (get_siblings_loop K T rounds path s).1
  unfolding get_siblings_loop
  get_siblings_loop-skeleton zero path s = refl
  get_siblings_loop-skeleton (suc i) path s =
      Same-bind {B = List UserState} (lift (get_other_child path)) s _ refl λ other_child.
        Same-bind {B = List UserState} (get_state_by_path K T other_child) s _
          (get_state_by_path-skeleton other_child s)
          λ other_node.
            let s1 : T.Store = (get_state_by_path K T other_child s).1 in
            Same-bind {B = List UserState} (get_siblings_loop K T i (get_parent_path path)) s1 _
              (get_siblings_loop-skeleton i (get_parent_path path) s1) λ siblings. refl

  pub get_siblings-skeleton : (path : Str) (s : T.Store) → Same s (get_siblings K T path s).1
  unfolding get_siblings
  get_siblings-skeleton path = get_siblings_loop-skeleton (length path) path

  store_node-skeleton :
      (h : ByteArray) (left right : UserState) (is_left : Bool) (s : T.Store)
      → Same s (store_node K T h left right is_left s).1
  unfolding store_node update_parent_with_hash
  store_node-skeleton h left right true s =
      Same-bind {B = Unit {0}} (update_account K T left left.path) s _
        (update_account-skeleton left left.path s)
        λ done. update_account-skeleton _ (get_parent_path left.path) _
  store_node-skeleton h left right false s =
      Same-bind {B = Unit {0}} (update_account K T right right.path) s _
        (update_account-skeleton right right.path s)
        λ done. update_account-skeleton _ (get_parent_path left.path) _

  store_pair-skeleton :
      (bit : ℕ) (computed sibling : UserState) (s : T.Store)
      → Same s (store_pair K T bit computed sibling s).1
  unfolding store_pair
  store_pair-skeleton zero computed sibling s =
      Same-bind {B = Unit {0}} (lift (hash_to_byte_array computed)) s _ refl λ left.
        Same-bind {B = Unit {0}} (lift (hash_to_byte_array sibling)) s _ refl λ right.
          Same-bind {B = Unit {0}} (lift (get_parent K left right)) s _ refl
            λ h. store_node-skeleton h computed sibling true s
  store_pair-skeleton (suc bit) computed sibling s =
      Same-bind {B = Unit {0}} (lift (hash_to_byte_array sibling)) s _ refl λ left.
        Same-bind {B = Unit {0}} (lift (hash_to_byte_array computed)) s _ refl λ right.
          Same-bind {B = Unit {0}} (lift (get_parent K left right)) s _ refl
            λ h. store_node-skeleton h sibling computed false s

  store_leaf_loop-skeleton :
      (path : Str) (i : ℕ) (siblings : List UserState) (computed : UserState) (s : T.Store)
      → Same s (store_leaf_loop K T path i siblings computed s).1
  unfolding store_leaf_loop update_root_node_hashes
  store_leaf_loop-skeleton path i [] computed s =
      Same-bind {B = Unit {0}} (lift (hash_to_byte_array computed)) s _ refl
        λ root. update_account-skeleton _ [] s
  store_leaf_loop-skeleton path i (sibling ∷ siblings) computed s =
      Same-bind {B = Unit {0}} (lift (get_nth_bit_from_right path i)) s _ refl λ bit.
        Same-bind {B = Unit {0}} (store_pair K T bit computed sibling) s _
          (store_pair-skeleton bit computed sibling s)
          λ done.
            let s1 : T.Store = (store_pair K T bit computed sibling s).1 in
            let above : Str = get_parent_path computed.path in
            Same-bind {B = Unit {0}} (get_state_by_path K T above) s1 _
              (get_state_by_path-skeleton above s1)
              λ parent.
                store_leaf_loop-skeleton path (i + 1) siblings parent
                  (get_state_by_path K T above s1).1

  -- Whatever the account, the table and the statements that fail: `UpdateState` neither adds nor
  -- removes a row, and of every row it leaves each column but the data and the hash as it was.
  pub update_state-skeleton :
      (account : UserState) (s : T.Store)
      → map skeleton (T.rows (update_state K T account s).1) ≡ map skeleton (T.rows s)
  unfolding update_state store_leaf
  update_state-skeleton account s =
      Same-bind {B = Unit {0}} (get_siblings K T account.path) s _
        (get_siblings-skeleton account.path s)
        λ siblings.
          store_leaf_loop-skeleton account.path 0 siblings (create_account_hash K account) _
