-- ===== src/State/Harmless.antt =====
-- core/state.go: the reading calls never panic and change no row, whichever statements fail.
use reddit_commander.Prelude.{
  ℕ, zero, suc, ◌≡◌, ◌≢◌, refl, sym, ap, ◌∙◌, Bool-cases, inl, inr, List, [], ◌∷◌, snoc_cases,
  length, length-append, All, select, arith, Outcome, ok, err, panic, panic≢ok, err≢panic, db_fault,
  record_not_found,
}
use reddit_commander.Bytes.{Str}
use reddit_commander.NodePath.{get_other_child, get_parent_path}
use reddit_commander.NodePath.Family.{get_other_child-snoc, get_parent_path-snoc}
use reddit_commander.Merkle.{Crypto}
use reddit_commander.Gorm.{Table, lift}
use reddit_commander.Gorm.Keeps.{Harmless, Harmless-pure, Harmless-lift, Harmless-bind}
use reddit_commander.State.{
  UserState, as_not_found, blank_unless_not_found, has_path, get_state_by_path, get_siblings,
  get_siblings_loop, get_deposit_sub_tree_root,
}

module _ (K : Crypto) (T : Table UserState) where
  -- How a call ends, as `Harmless` asks.
  abbrev Fine {ℓ} : {A : Type ℓ} → T.Store → Outcome A × T.Store → Type ℓ
  Fine s x = (x.0 ≢ panic) × (T.rows x.1 ≡ T.rows s)

  as_not_found-Fine :
      {A : Type 0} (s : T.Store) (x : Outcome A × T.Store) → Fine s x → Fine s (as_not_found x)
  as_not_found-Fine s (ok a, s') k = k
  as_not_found-Fine s (err e, s') k = (err≢panic record_not_found _ refl, k.1)
  as_not_found-Fine s (panic, s') k = k

  blank_unless-Fine :
      (s : T.Store) (x : Outcome UserState × T.Store) → Fine s x → Fine s (blank_unless_not_found x)
  blank_unless-Fine s (ok a, s') k = k
  blank_unless-Fine s (err e, s') k = elim e as (λ e. Fine s (blank_unless_not_found (err e, s'))) [
    | record_not_found ↦ (err≢panic record_not_found _ refl, k.1)
    | _ ↦ (λ h. panic≢ok (sym h), k.1)
  ]
  blank_unless-Fine s (panic, s') k = k

  every_unit : (xs : List UserState) → All (λ x. Unit {0}) xs
  every_unit [] = tt
  every_unit (x ∷ xs) = (tt, every_unit xs)

  pick_fine : (xs : List UserState) → T.pick xs ≢ panic
  pick_fine [] h = err≢panic record_not_found (T.pick []) T.pick_none h
  pick_fine (x ∷ xs) h =
      let (y, found, _) = T.pick_some (λ y. Unit {0}) x xs (every_unit (x ∷ xs)) in
      panic≢ok (sym h ∙ found)

  find_one-Fine : (p : UserState → _) (s : T.Store) → Fine s (T.find_one p s)
  find_one-Fine p s = elim (Bool-cases (T.fault s)) [
    | inl f ↦ rw (T.find_one_lem p s, f) (err≢panic db_fault _ refl, T.rows-tick s)
    | inr f ↦ rw (T.find_one_lem p s, f) (pick_fine (select p (T.rows s)), T.rows-tick s)
  ]

  get_state_by_path-Harmless : (path : Str) → Harmless T.rows (get_state_by_path K T path)
  unfolding get_state_by_path
  get_state_by_path-Harmless path s =
      as_not_found-Fine s (T.find_one (has_path path) s) (find_one-Fine (has_path path) s)

  pub get_deposit_sub_tree_root-Harmless :
      (hash : Str) (level : ℕ) → Harmless T.rows (get_deposit_sub_tree_root K T hash level)
  unfolding get_deposit_sub_tree_root
  get_deposit_sub_tree_root-Harmless hash level s =
      blank_unless-Fine s (T.find_one _ s) (find_one-Fine _ s)

  get_siblings_loop-Harmless :
      (n : ℕ) (path : Str) → length path ≡ n → Harmless T.rows (get_siblings_loop K T n path)
  unfolding get_siblings_loop
  get_siblings_loop-Harmless zero path len = Harmless-pure T.rows []
  get_siblings_loop-Harmless (suc n) path len = elim (snoc_cases path) [
    | inl empty ↦ absurd (omega (arith, len, ap length empty))
    | inr (p, c, split) ↦
        Harmless-bind T.rows {B = List UserState} (lift (get_other_child path)) _
          (Harmless-lift T.rows (get_other_child path)
            (λ h. panic≢ok (sym h ∙ ap get_other_child split ∙ get_other_child-snoc p c)))
          λ other_child.
            Harmless-bind T.rows {B = List UserState} (get_state_by_path K T other_child) _
              (get_state_by_path-Harmless other_child)
              λ other_node.
                Harmless-bind T.rows {B = List UserState}
                  (get_siblings_loop K T n (get_parent_path path)) _
                  (get_siblings_loop-Harmless n (get_parent_path path) (
                    ap (λ q. length (get_parent_path q)) split
                    ∙ ap length (get_parent_path-snoc p c)
                    ∙ omega (arith, len, ap length split, length-append p (c ∷ []))))
                  λ siblings. Harmless-pure T.rows (other_node ∷ siblings)
  ]

  pub get_siblings-Harmless : (path : Str) → Harmless T.rows (get_siblings K T path)
  unfolding get_siblings
  get_siblings-Harmless path = get_siblings_loop-Harmless (length path) path refl
