-- ===== src/Params/Writes.antt =====
-- What a sequence of updates leaves in the tables of core/params.go.
use reddit_commander.Prelude.{ℕ, zero, suc, ◌≡◌, refl, sym, ap, ◌∙◌, true, List, [], ◌∷◌, ok}
use reddit_commander.Gorm.{Exec, Table, IsQuiet, pure, ◌>>◌}
use reddit_commander.Params.{
  Params, blank_params, update_stake_amount, update_finalisation_time_per_batch, update_max_depth,
  update_deposit_sub_tree_height, get_params,
}

-- An update of the parameters and its value.
pub data ParamWrite : Type 0 where
  stake depth sub_tree_height finalisation : ℕ → ParamWrite

module _ (T : Table Params) where
  unfoldable pub run_write : ParamWrite → Exec T.Store (Unit {0})
  run_write (stake n) = update_stake_amount T n
  run_write (depth n) = update_max_depth T n
  run_write (sub_tree_height n) = update_deposit_sub_tree_height T n
  run_write (finalisation n) = update_finalisation_time_per_batch T n

  unfoldable pub run_writes : List ParamWrite → Exec T.Store (Unit {0})
  run_writes [] = pure tt
  run_writes (w ∷ ws) = do run_write w; run_writes ws

-- What the value is meant to replace; a zero replaces nothing.
abbrev pub newer : ℕ → ℕ → ℕ
newer zero old = old
newer (suc n) old = suc n

abbrev pub put : ParamWrite → Params → Params
put (stake n) p = record p { stake_amount = newer n p.stake_amount }
put (depth n) p = record p { max_depth = newer n p.max_depth }
put (sub_tree_height n) p = record p {
  max_deposit_sub_tree_height = newer n p.max_deposit_sub_tree_height;
}
put (finalisation n) p = record p { finalisation_time = newer n p.finalisation_time }

abbrev pub put_all : List ParamWrite → Params → Params
put_all [] p = p
put_all (w ∷ ws) p = put_all ws (put w p)

pub newer_self : (n : ℕ) → newer n n ≡ n
newer_self zero = refl
newer_self (suc n) = refl

newer_zero : (n : ℕ) → newer n 0 ≡ n
newer_zero zero = refl
newer_zero (suc n) = refl

pub overwrite_number-newer :
    {Row : Type 0} (T : Table Row) (n old : ℕ) → T.overwrite_number n old ≡ newer n old
overwrite_number-newer T zero old = T.overwrite_number_blank old
overwrite_number-newer T (suc n) old = T.overwrite_number_set n old

-- The state after a call that succeeds on one row.
abbrev pub Leaves :
    {Row : Type 0} (T : Table Row) → Exec T.Store (Unit {0}) → T.Store → Row → Type 0
Leaves T m s r = (s' : T.Store) × (m s ≡ (ok tt, s')) × (T.rows s' ≡ r ∷ [])

first_or_create-Leaves :
    {Row : Type 0} (T : Table Row) (q : IsQuiet T) (f : Row → Row) (out r r' : Row) (s : T.Store)
    → f r ≡ r'
    → T.rows s ≡ r ∷ []
    → Leaves T (T.first_or_create f out) s r'
first_or_create-Leaves T q f out r r' s written e = (
  T.assigned f out s,
  rw (T.first_or_create_lem f out s, q s) refl,
  T.rows-assigned_one f out r s e ∙ ap (λ x. x ∷ []) written,
)

first_or_create-Leaves_empty :
    {Row : Type 0} (T : Table Row) (q : IsQuiet T) (f : Row → Row) (out r' : Row) (s : T.Store)
    → f out ≡ r'
    → T.rows s ≡ []
    → Leaves T (T.first_or_create f out) s r'
first_or_create-Leaves_empty T q f out r' s written e = (
  T.assigned f out s,
  rw (T.first_or_create_lem f out s, q s) refl,
  T.rows-assigned_empty f out s e ∙ ap (λ x. x ∷ []) written,
)

module _ (T : Table Params) (q : IsQuiet T) where
  run_write-Leaves :
      (w : ParamWrite) (r : Params) (s : T.Store)
      → T.rows s ≡ r ∷ []
      → Leaves T (run_write T w) s (put w r)
  unfolding run_write update_stake_amount update_max_depth update_deposit_sub_tree_height
      update_finalisation_time_per_batch
  run_write-Leaves (stake n) r s e =
      first_or_create-Leaves T q _ _ r _ s
        (ap (λ v. record r { stake_amount = v }) (overwrite_number-newer T n r.stake_amount)) e
  run_write-Leaves (depth n) r s e =
      first_or_create-Leaves T q _ _ r _ s
        (ap (λ v. record r { max_depth = v }) (overwrite_number-newer T n r.max_depth)) e
  run_write-Leaves (sub_tree_height n) r s e =
      first_or_create-Leaves T q _ _ r _ s
        (ap (λ v. record r { max_deposit_sub_tree_height = v })
          (overwrite_number-newer T n r.max_deposit_sub_tree_height))
        e
  run_write-Leaves (finalisation n) r s e =
      first_or_create-Leaves T q _ _ r _ s
        (ap (λ v. record r { finalisation_time = v })
          (overwrite_number-newer T n r.finalisation_time))
        e

  -- On a table of one row every sequence of updates succeeds, and it leaves in each column the last
  -- value other than 0 that was given for it, or the old value.
  pub run_writes-Leaves :
      (ws : List ParamWrite) (r : Params) (s : T.Store)
      → T.rows s ≡ r ∷ []
      → Leaves T (run_writes T ws) s (put_all ws r)
  unfolding run_writes
  run_writes-Leaves [] r s e = (s, refl, e)
  run_writes-Leaves (w ∷ ws) r s e =
      let (s1, e1, r1) = run_write-Leaves w r s e in
      let (s2, e2, r2) = run_writes-Leaves ws (put w r) s1 r1 in (s2, rw (e1, e2) refl, r2)

  -- On an empty table the stake amount is written first, as at genesis.
  run_write_first :
      (n : ℕ) (s : T.Store)
      → T.rows s ≡ []
      → Leaves T (run_write T (stake n)) s (put (stake n) blank_params)
  unfolding run_write update_stake_amount
  run_write_first n s e =
      first_or_create-Leaves_empty T q _ _ _ s
        (ap (λ v. record blank_params { stake_amount = v })
          (overwrite_number-newer T n n ∙ newer_self n ∙ sym (newer_zero n)))
        e

  -- `GetParams` returns the row.
  pub get_params_one :
      (r : Params) (s : T.Store) → T.rows s ≡ r ∷ [] → get_params T s ≡ (ok r, T.tick s)
  unfolding get_params
  get_params_one r s e = rw (T.find_one_lem (λ row. true) s, q s, e, T.pick_one r) refl

  -- On a table of one row and where no statement fails, after a sequence of updates `GetParams`
  -- returns a row whose every column is the last value other than 0 that was given for it, or the
  -- old value. No update changes another column.
  pub get_params-run_writes :
      (ws : List ParamWrite) (r : Params) (s : T.Store)
      → T.rows s ≡ r ∷ []
      → (s' : T.Store) × ((run_writes T ws >> get_params T) s ≡ (ok (put_all ws r), s'))
  get_params-run_writes ws r s e =
      let (s1, e1, r1) = run_writes-Leaves ws r s e in
      (T.tick s1, rw (e1) (get_params_one (put_all ws r) s1 r1))

  -- On an empty table and where no statement fails, after `UpdateStakeAmount` and then any sequence
  -- of updates `GetParams` returns a row whose every column is the last value other than 0 that was
  -- given for it, or 0.
  pub get_params-run_writes_first :
      (n : ℕ) (ws : List ParamWrite) (s : T.Store)
      → T.rows s ≡ []
      → (s' : T.Store) × ((run_writes T (stake n ∷ ws) >> get_params T) s
          ≡ (ok (put_all (stake n ∷ ws) blank_params), s'))
  unfolding run_writes
  get_params-run_writes_first n ws s e =
      let (s1, e1, r1) = run_write_first n s e in
      let (s2, e2) = get_params-run_writes ws (put (stake n) blank_params) s1 r1 in (s2, rw e1 e2)

  -- The four updates of the first start, each on what the one before left.
  pub first_writes :
      (stake_amount max_depth height finalisation_time : ℕ) (s : T.Store)
      → T.rows s ≡ []
      → (s1 : T.Store) × (s2 : T.Store) × (s3 : T.Store) × (s4 : T.Store) × (update_stake_amount T
            stake_amount s
          ≡ (ok tt, s1))
        × (update_max_depth T max_depth s1 ≡ (ok tt, s2))
        × (update_deposit_sub_tree_height T height s2 ≡ (ok tt, s3))
        × (update_finalisation_time_per_batch T finalisation_time s3 ≡ (ok tt, s4))
        × (T.rows s4
            ≡ record {
              stake_amount = stake_amount;
              max_depth = max_depth;
              max_deposit_sub_tree_height = height;
              finalisation_time = finalisation_time;
            }
              ∷ [])
  unfolding run_write
  first_writes stake_amount max_depth height finalisation_time s e =
      let p1 : Params = put (stake stake_amount) blank_params in
      let p2 : Params = put (depth max_depth) p1 in
      let p3 : Params = put (sub_tree_height height) p2 in
      let (s1, e1, r1) = run_write_first stake_amount s e in
      let (s2, e2, r2) = run_write-Leaves (depth max_depth) p1 s1 r1 in
      let (s3, e3, r3) = run_write-Leaves (sub_tree_height height) p2 s2 r2 in
      let (s4, e4, r4) = run_write-Leaves (finalisation finalisation_time) p3 s3 r3 in
      (
        s1,
        s2,
        s3,
        s4,
        e1,
        e2,
        e3,
        e4,
        r4
            ∙ rw
                (
                  newer_zero stake_amount,
                  newer_zero max_depth,
                  newer_zero height,
                  newer_zero finalisation_time,
                )
                refl,
      )
