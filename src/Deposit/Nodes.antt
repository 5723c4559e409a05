-- ===== src/Deposit/Nodes.antt =====
-- core/DepositTree.go: the leaves that `GetAllTerminalNodes` finds.
use reddit_commander.Prelude.{
  and_left, and_right, ℕ, zero, suc, ◌-◌, ◌^◌, ◌≤◌, ◌<◌, ◌≡◌, ◌⊎◌, refl, sym, ap, ◌∙◌, subst, Bool,
  true, Bool-cases, inl, inr, List, [], ◌∷◌, map, get_elem?, length, All, All-imp, select, arith,
  ok, some, ◌==◌, ==_iff, list_eq_refl,
}
use reddit_commander.Bytes.{Str, to_string}
use reddit_commander.Constants.{uninitialized_path, type_terminal}
use reddit_commander.NodePath.{IsBit, IsBits, solidity_path_to_node_path}
use reddit_commander.NodePath.Index.{solidity_path-Roundtrip}
use reddit_commander.Merkle.{Crypto, zero_value_leaf}
use reddit_commander.Gorm.{Table}
use reddit_commander.Gorm.Select.{All-found}
use reddit_commander.State.{UserState, has_path}
use reddit_commander.State.Rows.{Rows}
use reddit_commander.Deposit.{has_prefix, is_terminal_under, empty_paths}
use reddit_commander.Deposit.Sound.{Sound, Placed, not_IsBits}
use reddit_commander.Deposit.Finalise.{Places}

abbrev pub paths : Rows → List Str
paths = map (λ row. row.path)

abbrev pub IsEmptyLeaf : UserState → Type 0
IsEmptyLeaf row = row.hash ≡ to_string zero_value_leaf

pub empty_paths_lem : (rows : Rows) → All IsEmptyLeaf rows → empty_paths rows ≡ ok (paths rows)
unfolding empty_paths
empty_paths_lem [] h = refl
empty_paths_lem (row ∷ rows) h =
    rw (h.0, list_eq_refl (to_string zero_value_leaf), empty_paths_lem rows h.1) refl

length-select-select :
    {A : Type 0} (p t : A → Bool) (xs : List A)
    → length (select p (select t xs)) ≤ length (select p xs)
length-select-select p t [] = omega arith
length-select-select p t (x ∷ xs) = elim (Bool-cases (t x)) [
  | inl e ↦ elim (Bool-cases (p x)) [
    | inl f ↦ rw (e, f) (omega (arith, length-select-select p t xs))
    | inr f ↦ rw (e, f) (length-select-select p t xs)
  ]
  | inr e ↦ elim (Bool-cases (p x)) [
    | inl f ↦ rw (e, f) (omega (arith, length-select-select p t xs))
    | inr f ↦ rw (e, f) (length-select-select p t xs)
  ]
]

at_path : (row : UserState) (q : Str) → row.path ≡ q → has_path q row ≡ true
at_path row q e = rw e (list_eq_refl q)

once :
    (rows : Rows) (i : ℕ) (q : Str)
    → get_elem? (paths rows) i ≡ some q
    → 1 ≤ length (select (has_path q) rows)
once [] i q e = cc
once (row ∷ rows) zero q e = rw (at_path row q cc) (omega arith)
once (row ∷ rows) (suc i) q e = elim (Bool-cases (has_path q row)) [
  | inl f ↦ rw f (omega arith)
  | inr f ↦ rw f (once rows i q e)
]

twice :
    (rows : Rows) (i j : ℕ) (q : Str)
    → get_elem? (paths rows) i ≡ some q
    → get_elem? (paths rows) j ≡ some q
    → (i ≡ j) ⊎ (2 ≤ length (select (has_path q) rows))
twice [] i j q e f = cc
twice (row ∷ rows) zero zero q e f = inl refl
twice (row ∷ rows) zero (suc j) q e f = inr (rw (at_path row q cc) (omega (arith, once rows j q f)))
twice (row ∷ rows) (suc i) zero q e f = inr (rw (at_path row q cc) (omega (arith, once rows i q e)))
twice (row ∷ rows) (suc i) (suc j) q e f = elim (twice rows i j q e f) [
  | inl same ↦ inl (ap suc same)
  | inr more ↦ elim (Bool-cases (has_path q row)) [
    | inl g ↦ inr (rw g (omega (arith, more)))
    | inr g ↦ inr (rw g more)
  ]
]

get_elem?-path :
    {P : UserState → Type 0} (rows : Rows) (j : ℕ) (n : Str)
    → All P rows
    → get_elem? (paths rows) j ≡ some n
    → (row : UserState) × P row × (row.path ≡ n)
get_elem?-path [] j n h e = cc
get_elem?-path (row ∷ rows) zero n h e = (row, h.0, cc)
get_elem?-path (row ∷ rows) (suc j) n h e = get_elem?-path rows j n h.1 e

has_prefix-first :
    (c : ℕ) (prefix path : Str)
    → has_prefix (c ∷ prefix) path ≡ true
    → (rest : Str) × (path ≡ c ∷ rest)
has_prefix-first c prefix [] h = cc
has_prefix-first c prefix (x ∷ path) h =
    (path, ap (λ y. y ∷ path) (sym ((==_iff c x).0 (and_left (c == x) (has_prefix prefix path) h))))

dash-IsBit :
    (c : ℕ) (rest : Str)
    → uninitialized_path ≡ c ∷ rest
    → IsBits (c ∷ [])
    → IsBits uninitialized_path
dash-IsBit c rest e bits = let first : 45 ≡ c = cc in absurd (omega (arith, first, bits.0))

-- A prefix that starts with a bit is not one of the path of a pending row.
leaf-under :
    (d c : ℕ) (prefix : Str) (row : UserState)
    → IsBit c
    → Placed d row
    → is_terminal_under (c ∷ prefix) row ≡ true
    → IsBits row.path × (length row.path ≡ d)
leaf-under d c prefix row bit placed found = elim (placed.terminal terminal) [
  | inl e ↦ absurd (not_IsBits (dash-IsBit c first.0 (sym e ∙ first.1) (bit, tt)))
  | inr leaf ↦ leaf
]
  where
    first : (rest : Str) × (row.path ≡ c ∷ rest)
    first = has_prefix-first c prefix row.path (and_left _ (row.node_type == type_terminal) found)

    terminal : row.node_type ≡ type_terminal
    terminal =
        (==_iff row.node_type type_terminal).0
          (and_right (has_prefix (c ∷ prefix) row.path) _ found)

-- What the query under a path finds are leaves, each once.
terminal-Places :
    (K : Crypto) (T : Table UserState) (d c : ℕ) (prefix : Str) (rows : Rows)
    → IsBit c
    → Sound K d rows
    → Places K T d (paths (select (is_terminal_under (c ∷ prefix)) rows))
terminal-Places K T d c prefix rows bit sound = record { leaves = leaves; distinct = distinct }
  where
    found : Rows
    found = select (is_terminal_under (c ∷ prefix)) rows

    found-leaf : All (λ row. IsBits row.path × (length row.path ≡ d)) found
    found-leaf =
        All-found _ (is_terminal_under (c ∷ prefix)) rows
          (All-imp rows (λ row. leaf-under d c prefix row bit) sound.placed)

    leaves : (j : ℕ) (n : Str) → get_elem? (paths found) j ≡ some n → IsBits n × (length n ≡ d)
    leaves j n e =
        let (row, leaf, same) = get_elem?-path found j n found-leaf e in
        subst (λ p. IsBits p × (length p ≡ d)) same leaf

    distinct :
        (i j : ℕ) (n : Str)
        → get_elem? (paths found) i ≡ some n
        → get_elem? (paths found) j ≡ some n
        → i ≡ j
    distinct i j n e f = elim (twice found i j n e f) [
      | inl same ↦ same
      | inr more ↦
          let (bits, len) = leaves i n e in
          let (r, node, hash) = sound.tree n bits (omega arith) in
          absurd (
            omega (
              arith,
              more,
              length-select-select (has_path n) (is_terminal_under (c ∷ prefix)) rows,
              ap length node,
            ))
    ]

pub under-Places :
    (K : Crypto) (T : Table UserState) (d index : ℕ) (under : Str) (rows : Rows)
    → 1 < d
    → d ≤ 64
    → index < 2 ^ (d - 1)
    → solidity_path_to_node_path index (d - 1) ≡ ok under
    → Sound K d rows
    → Places K T d (paths (select (is_terminal_under under) rows))
under-Places K T d index under rows lo hi small made sound =
    let (path, made', bits, len, reads) =
      solidity_path-Roundtrip index (d - 1) (omega arith) (omega arith) small in
    let same : path ≡ under = cc in
    by_first under (subst IsBits same bits) (omega (arith, len, ap length same))
  where
    by_first :
        (p : Str)
        → IsBits p
        → 0 < length p
        → Places K T d (paths (select (is_terminal_under p) rows))
    by_first [] h pos = absurd (omega arith)
    by_first (c ∷ p) h pos = terminal-Places K T d c p rows h.0 sound
