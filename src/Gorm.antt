-- ===== src/Gorm.antt =====
-- The database as the code uses it through github.com/jinzhu/gorm, which is not part of the
-- repository: one table, its statements, and the documented behaviour that the code relies on.
pub mod Memory
pub mod Select
pub mod Sort
pub mod Keeps
pub mod Counted
use reddit_commander.Prelude.{
  ℕ, suc, ◌≤◌, ◌≡◌, Bool, true, false, Perm, List, [], ◌∷◌, ◌++◌, length, take, any, All, select,
  Outcome, ok, err, panic, record_not_found, db_fault, if◌then◌else◌,
}

-- A call that reads or writes a store `S`. What was written before an error stays written.
abbrev pub Exec {ℓ} : Type 0 → Type ℓ → Type ℓ
Exec S A = S → Outcome A × S

module _ {ℓ} {S : Type 0} {A : Type ℓ} where
  abbrev pub pure : A → Exec S A
  pure a s = (ok a, s)

  abbrev pub lift : Outcome A → Exec S A
  lift r s = (r, s)

abbrev pub caught {ℓ} : {A : Type ℓ} → Outcome A → Outcome (Outcome A)
caught (ok a) = ok (ok a)
caught (err e) = ok (err e)
caught panic = panic

module _ {ℓ κ} {S : Type 0} {A : Type ℓ} {B : Type κ} where
  abbrev pub continue : Outcome A → (A → Exec S B) → Exec S B
  continue (ok a) f s = f a s
  continue (err e) f s = (err e, s)
  continue panic f s = (panic, s)

  infixl 10 ◌>>=◌ ◌>>◌
  abbrev pub ◌>>=◌ : Exec S A → (A → Exec S B) → Exec S B
  ◌>>=◌ m f s = let (r, s') = m s in continue r f s'

  abbrev pub ◌>>◌ : Exec S A → Exec S B → Exec S B
  m >> n = m >>= λ _. n

-- An error is a value, as where a caller goes on after it.
abbrev pub attempt {ℓ} : {S : Type 0} {A : Type ℓ} → Exec S A → Exec S (Outcome A)
attempt m s = let (r, s') = m s in (caught r, s')

abbrev pub map_where {ℓ} : {A : Type ℓ} → (A → Bool) → (A → A) → List A → List A
map_where p f [] = []
map_where p f (x ∷ xs) = (if p x then f x else x) ∷ map_where p f xs

-- No row has a smaller key than the one before it.
abbrev pub IsAscending {ℓ} : {A : Type ℓ} → (A → ℕ) → List A → Type 0
IsAscending key [] = Unit
IsAscending key (x ∷ []) = Unit
IsAscending key (x ∷ y ∷ xs) = (key x ≤ key y) × IsAscending key (y ∷ xs)

-- One table. A statement fails where `fault` says so, as by a lost connection, and then writes
-- nothing; whether the next one fails is open.
pub record Table (Row : Type 0) : Type 1 where
  pub Store : Type 0
  -- the rows in the order in which a query with no ORDER BY returns them
  pub rows : Store → List Row
  pub fault : Store → Bool
  pub tick : Store → Store
  pub rows-tick : (s : Store) → rows (tick s) ≡ rows s
  -- Where(p).Find(&slice)
  pub find_all : (Row → Bool) → Exec Store (List Row)
  pub find_all_lem :
      (p : Row → Bool) (s : Store)
      → find_all p s ≡ (if fault s then err db_fault else ok (select p (rows s)), tick s)
  -- Where(p).Find(&row) and Where(p).First(&row): which of several matches they give is left open
  pub pick : List Row → Outcome Row
  pub pick_none : pick [] ≡ err record_not_found
  pub pick_one : (r : Row) → pick (r ∷ []) ≡ ok r
  pub pick_some :
      (P : Row → Type 0) (r : Row) (rs : List Row)
      → All P (r ∷ rs)
      → (x : Row) × (pick (r ∷ rs) ≡ ok x) × P x
  pub find_one : (Row → Bool) → Exec Store Row
  pub find_one_lem :
      (p : Row → Bool) (s : Store)
      → find_one p s ≡ (if fault s then err db_fault else pick (select p (rows s)), tick s)
  -- Where(p).Updates(…), the columns given by a function of the row
  pub updated : (Row → Bool) → (Row → Row) → Store → Store
  pub rows-updated :
      (p : Row → Bool) (f : Row → Row) (s : Store) → rows (updated p f s) ≡ map_where p f (rows s)
  pub update : (Row → Bool) → (Row → Row) → Exec Store (Unit {0})
  pub update_lem :
      (p : Row → Bool) (f : Row → Row) (s : Store)
      → update p f s ≡ (if fault s then (err db_fault, tick s) else (ok tt, updated p f s))
  -- Create(&row), and gormbulk.BulkInsert(rows)
  pub inserted : List Row → Store → Store
  pub rows-inserted : (xs : List Row) (s : Store) → rows (inserted xs s) ≡ rows s ++ xs
  pub insert : List Row → Exec Store (Unit {0})
  pub insert_lem :
      (xs : List Row) (s : Store)
      → insert xs s ≡ (if fault s then (err db_fault, tick s) else (ok tt, inserted xs s))
  -- Where(p).Delete(…)
  pub deleted : (Row → Bool) → Store → Store
  pub rows-deleted :
      (p : Row → Bool) (s : Store)
      → rows (deleted p s) ≡ select (λ r. if p r then false else true) (rows s)
  pub delete : (Row → Bool) → Exec Store (Unit {0})
  pub delete_lem :
      (p : Row → Bool) (s : Store)
      → delete p s ≡ (if fault s then (err db_fault, tick s) else (ok tt, deleted p s))
  -- Limit(n).Order(column).Where(p).Find(&slice)
  pub ordered : (Row → ℕ) → List Row → List Row
  pub ordered-All :
      (P : Row → Type 0) (key : Row → ℕ) (xs : List Row) → All P xs → All P (ordered key xs)
  pub any-ordered :
      (p : Row → Bool) (key : Row → ℕ) (xs : List Row) → any p (ordered key xs) ≡ any p xs
  pub length-ordered : (key : Row → ℕ) (xs : List Row) → length (ordered key xs) ≡ length xs
  pub ordered-IsAscending : (key : Row → ℕ) (xs : List Row) → IsAscending key (ordered key xs)
  pub ordered-Perm : (key : Row → ℕ) (xs : List Row) → Perm (ordered key xs) xs
  pub find_ordered : ℕ → (Row → ℕ) → (Row → Bool) → Exec Store (List Row)
  pub find_ordered_lem :
      (n : ℕ) (key : Row → ℕ) (p : Row → Bool) (s : Store)
      → find_ordered n key p s
        ≡ (if fault s then err db_fault else ok (take n (ordered key (select p (rows s)))), tick s)
  -- Assign(columns).FirstOrCreate(&row), for a table of at most one row: the columns are written to
  -- the row that is there, or to the given row before its insertion
  pub assigned : (Row → Row) → Row → Store → Store
  pub rows-assigned_empty :
      (f : Row → Row) (out : Row) (s : Store) → rows s ≡ [] → rows (assigned f out s) ≡ f out ∷ []
  pub rows-assigned_one :
      (f : Row → Row) (out r : Row) (s : Store)
      → rows s ≡ r ∷ []
      → rows (assigned f out s) ≡ f r ∷ []
  pub first_or_create : (Row → Row) → Row → Exec Store (Unit {0})
  pub first_or_create_lem :
      (f : Row → Row) (out : Row) (s : Store)
      → first_or_create f out s
        ≡ (if fault s then (err db_fault, tick s) else (ok tt, assigned f out s))
  -- Begin(), then the end of the transaction: what it wrote is kept, or the rows are again those of
  -- the store it began with
  pub begin : Exec Store (Unit {0})
  pub begin_lem : (s : Store) → begin s ≡ (if fault s then err db_fault else ok tt, tick s)
  pub undone : Store → Store → Store
  pub rows-undone : (before s : Store) → rows (undone before s) ≡ rows before
  pub commit : Store → Exec Store (Unit {0})
  pub commit_lem :
      (before s : Store)
      → commit before s ≡ (if fault s then (err db_fault, undone before s) else (ok tt, tick s))
  -- an update by a struct skips its blank fields
  pub overwrite : List ℕ → List ℕ → List ℕ
  pub overwrite_blank : (old : List ℕ) → overwrite [] old ≡ old
  pub overwrite_set : (c : ℕ) (new old : List ℕ) → overwrite (c ∷ new) old ≡ c ∷ new
  pub overwrite_number : ℕ → ℕ → ℕ
  pub overwrite_number_blank : (old : ℕ) → overwrite_number 0 old ≡ old
  pub overwrite_number_set : (n old : ℕ) → overwrite_number (suc n) old ≡ suc n

-- No statement fails.
abbrev pub IsQuiet : {Row : Type 0} → Table Row → Type 0
IsQuiet T = (s : T.Store) → T.fault s ≡ false

-- Count(&n).
unfoldable pub count : {Row : Type 0} (T : Table Row) → (Row → Bool) → Exec T.Store ℕ
count T p = do found ← T.find_all p; pure (length found)
