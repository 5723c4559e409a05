-- ===== src/State/Levels.antt =====
-- core/state.go: the levels of the tree that `InitStateTree` makes, as lists of rows.
use reddit_commander.Prelude.{
  get_elem?-length, get_elem?, some, ℕ, zero, suc, ◌+◌, ◌*◌, ◌/◌, ◌%◌, ◌^◌, ◌≤◌, ◌<◌, ◌≡◌, ◌≢◌,
  refl, sym, ap, ◌∙◌, subst, true, false, [], ◌∷◌, ◌++◌, length, select, arith, ok, ◌==◌, ==_refl,
  ==_ne, list_eq, list_eq_refl, list_eq_ne,
}
use reddit_commander.Bytes.{Str}
use reddit_commander.NodePath.{get_parent_path}
use reddit_commander.NodePath.Family.{get_parent_path-snoc}
use reddit_commander.NodePath.Binary.{binary, length-binary, value, value-binary}
use reddit_commander.Merkle.{Crypto}
use reddit_commander.State.{UserState, has_path, new_state_node, update_path}
use reddit_commander.State.Rows.{
  Rows, Node, IsHash, IsHash-reads, join, join-IsHash, get_parent-join,
}
use reddit_commander.State.Init.{next_level}

-- Rows that follow one another on level `w`, from index `n` on.
abbrev pub Level : ℕ → ℕ → Rows → Type 0
Level w n [] = Unit
Level w n (r ∷ rows) = (r.path ≡ binary w n) × (r.level ≡ w) × IsHash r.hash × Level w (suc n) rows

-- A level whose rows join two by two those of the level below.
abbrev pub Joins : Crypto → Rows → Rows → Type 0
Joins K [] below = Unit
Joins K (r ∷ rows) (a ∷ b ∷ below) = (r.hash ≡ join K a.hash b.hash) × Joins K rows below
Joins K (r ∷ rows) (a ∷ []) = r ≢ r
Joins K (r ∷ rows) [] = r ≢ r

pub binary-even : (w n : ℕ) → binary (suc w) (n * 2) ≡ binary w n ++ 48 ∷ []
binary-even w n = rw (half, rest) refl
  where
    half : (n * 2) / 2 ≡ n
    half = omega arith

    rest : (n * 2) % 2 ≡ 0
    rest = omega arith

pub binary-odd : (w n : ℕ) → binary (suc w) (n * 2 + 1) ≡ binary w n ++ 49 ∷ []
binary-odd w n = rw (half, rest) refl
  where
    half : (n * 2 + 1) / 2 ≡ n
    half = omega arith

    rest : (n * 2 + 1) % 2 ≡ 1
    rest = omega arith

-- `next_level` on a level of twice as many rows.
pub next_level-Level :
    (K : Crypto) (w n m : ℕ) (rows : Rows)
    → Level (suc w) (n * 2) rows
    → length rows ≡ m * 2
    → (above : Rows) × (next_level K rows ≡ ok above)
      × Level w n above
      × (length above ≡ m)
      × Joins K above rows
unfolding next_level new_state_node update_path
next_level-Level K w n zero [] h len = ([], refl, tt, refl, tt)
next_level-Level K w n (suc m) [] h len = absurd (omega (arith, len))
next_level-Level K w n m (a ∷ []) h len = absurd (omega (arith, len))
next_level-Level K w n zero (a ∷ b ∷ rows) h len = absurd (omega (arith, len))
next_level-Level K w n (suc m) (a ∷ b ∷ rows) (pa, la, ha, (pb, lb, hb, rest)) len =
    let (above, made, level, count, joins) =
      next_level-Level K w (suc n) m rows (subst (λ k. Level (suc w) k rows) (omega arith) rest)
        (omega (arith, len)) in
    let path : get_parent_path a.path ≡ binary w n =
      ap get_parent_path (pa ∙ binary-even w n) ∙ get_parent_path-snoc (binary w n) 48 in
    (
      new_state_node (get_parent_path a.path) (join K a.hash b.hash) ∷ above,
      rw
          (
            IsHash-reads a.hash ha,
            IsHash-reads b.hash hb,
            get_parent-join K a.hash b.hash ha hb,
            made,
          )
          refl,
      (path, ap length path ∙ length-binary w n, join-IsHash K a.hash b.hash, level),
      ap suc count,
      (refl, joins),
    )

-- A path of another length, or of an index before the level's rows, is not on the level.
pub Level-other :
    (w n : ℕ) (rows : Rows) (q : Str)
    → Level w n rows
    → ((k : ℕ) → n ≤ k → k < n + length rows → binary w k ≢ q)
    → select (has_path q) rows ≡ []
Level-other w n [] q h apart = refl
Level-other w n (r ∷ rows) q (path, level, hash, rest) apart =
    let ne : list_eq r.path q ≡ false =
      list_eq_ne r.path q (λ e. apart n (omega arith) (omega arith) (sym path ∙ e)) in
    rw ne (Level-other w (suc n) rows q rest (λ k le lt. apart k (omega arith) (omega arith)))

-- Rows of another level are not returned by the query of a level.
pub Level-select :
    (w v n : ℕ) (rows : Rows) → Level w n rows → w ≢ v → select (λ row. row.level == v) rows ≡ []
Level-select w v n [] h ne = refl
Level-select w v n (r ∷ rows) (path, level, hash, rest) ne =
    rw (level, ==_ne w v ne) (Level-select w v (suc n) rows rest ne)

pub Level-select_self :
    (w n : ℕ) (rows : Rows) → Level w n rows → select (λ row. row.level == w) rows ≡ rows
Level-select_self w n [] h = refl
Level-select_self w n (r ∷ rows) (path, level, hash, rest) =
    let here : (r.level == w) ≡ true = rw level (==_refl w) in
    rw here (ap (λ xs. r ∷ xs) (Level-select_self w (suc n) rows rest))

pub binary_injective : (w a b : ℕ) → a < 2 ^ w → b < 2 ^ w → binary w a ≡ binary w b → a ≡ b
binary_injective w a b ha hb e = sym (value-binary w a ha) ∙ ap value e ∙ value-binary w b hb

-- The row of the index `k` is the only one with its path.
pub Level-Node :
    (w n k : ℕ) (rows : Rows) (r : UserState)
    → Level w n rows
    → n + length rows ≤ 2 ^ w
    → get_elem? rows k ≡ some r
    → Node rows (binary w (n + k)) r
Level-Node w n k [] r h room e = cc
Level-Node w n zero (x ∷ rows) r (path, level, hash, rest) room e =
    let same : x ≡ r = cc in
    let stop : n + 0 ≡ n = omega arith in
    let here : has_path (binary w (n + 0)) x ≡ true = rw (stop, path) (list_eq_refl (binary w n)) in
    let none_else : select (has_path (binary w (n + 0))) rows ≡ [] =
      Level-other w (suc n) rows (binary w (n + 0)) rest (λ k le lt e'.
        omega (arith, binary_injective w k (n + 0) (omega arith) (omega arith) e')) in
    rw here (ap (λ xs. x ∷ xs) none_else ∙ ap (λ y. y ∷ []) same)
Level-Node w n (suc k) (x ∷ rows) r (path, level, hash, rest) room e =
    let there : k < length rows = get_elem?-length rows k r e in
    let apart : has_path (binary w (n + suc k)) x ≡ false =
      list_eq_ne x.path (binary w (n + suc k)) (λ e'.
        omega
          (arith, binary_injective w n (n + suc k) (omega arith) (omega arith) (sym path ∙ e'))) in
    rw apart (
      subst (λ j. Node rows (binary w j) r) (omega arith)
        (Level-Node w (suc n) k rows r rest (omega arith) e))
