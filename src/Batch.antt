-- ===== src/Batch.antt =====
-- core/batch.go and core/tokenRegistry.go: the tables of batches and of tokens.
use reddit_commander.Prelude.{ℕ, [], ◌∷◌, true, Outcome, ok, err, panic, ◌==◌}
use reddit_commander.Bytes.{Str, Slice}
use reddit_commander.Gorm.{Exec, Table, attempt, count, pure, ◌>>=◌}

-- `type Batch struct`, as a row of its table: gorm has no column for a big.Int, so that `FinalisesOn` is
-- not stored.
pub record Batch : Type 0 where
  pub batch_id : ℕ
  pub state_root : Str
  pub committer : Str
  pub stake_amount : ℕ
  pub submission_hash : Str
  pub transactions_included : Slice
  pub batch_type : ℕ
  pub status : ℕ

-- The zero value of the struct.
abbrev pub blank_batch : Batch
blank_batch = record {
  batch_id = 0;
  state_root = [];
  committer = [];
  stake_amount = 0;
  submission_hash = [];
  transactions_included = [];
  batch_type = 0;
  status = 0;
}

-- `type Token struct`.
pub record Token : Type 0 where
  pub address : Str
  pub token_id : ℕ

abbrev or_zero : Outcome ℕ → ℕ
or_zero (ok n) = n
or_zero (err e) = 0
or_zero panic = 0

module _ (T : Table Batch) where
  -- An error of the count is not looked at.
  unfoldable pub get_batch_count : Exec T.Store ℕ
  get_batch_count = do counted ← attempt (count T (λ row. true)); pure (or_zero counted)

  unfoldable pub add_new_batch : Batch → Exec T.Store (Unit {0})
  add_new_batch batch = T.insert (batch ∷ [])

  unfoldable pub get_batch_by_index : ℕ → Exec T.Store Batch
  get_batch_by_index index = T.find_one (λ row. row.batch_id == index)

module _ (T : Table Token) where
  unfoldable pub add_token : Token → Exec T.Store (Unit {0})
  add_token t = T.insert (t ∷ [])

  unfoldable pub get_token_by_id : ℕ → Exec T.Store Token
  get_token_by_id id = T.find_one (λ row. row.token_id == id)
