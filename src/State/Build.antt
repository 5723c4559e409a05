-- ===== src/State/Build.antt =====
-- core/state.go: the tree while `InitStateTree` makes it, level by level.
use reddit_commander.Prelude.{
  ℕ, zero, suc, ◌+◌, ◌*◌, ◌^◌, ◌≤◌, ◌<◌, ◌≡◌, ◌≢◌, ◌⊎◌, refl, sym, ap, ◌∙◌, subst, some, inl, inr,
  [], ◌∷◌, ◌++◌, length, length-append, get_elem?, get_elem?-some, select, select-append, arith,
  ◌==◌,
}
use reddit_commander.Bytes.{Str}
use reddit_commander.NodePath.{IsBits}
use reddit_commander.NodePath.Binary.{binary, length-binary, value}
use reddit_commander.NodePath.Index.{IsBits-Exact}
use reddit_commander.Merkle.{Crypto}
use reddit_commander.State.{UserState, has_path}
use reddit_commander.State.Rows.{Rows, Node, IsHash, join}
use reddit_commander.State.Put.{Joined}
use reddit_commander.State.Levels.{
  Level, Joins, Level-select, Level-select_self, Level-Node, Level-other, binary-even, binary-odd,
}

-- The levels from `d` up to `i` are made; those above are not, and `xs` is the last one made.
pub record Built (K : Crypto) (d i : ℕ) (rows xs : Rows) : Type 0 where
  pub level : Level i 0 xs
  pub full : length xs ≡ 2 ^ i
  pub found : select (λ row. row.level == i) rows ≡ xs
  pub bare : (k : ℕ) → k < i → select (λ row. row.level == k) rows ≡ []
  pub nodes : (k : ℕ) (r : UserState) → get_elem? xs k ≡ some r → Node rows (binary i k) r
  pub unborn : (q : Str) → length q < i → select (has_path q) rows ≡ []
  pub tree :
      (q : Str)
      → IsBits q
      → i ≤ length q
      → length q ≤ d
      → (r : UserState) × Node rows q r × IsHash r.hash
  pub merkle : (q : Str) → IsBits q → i ≤ length q → length q < d → Joined K rows q

pub Level-hash :
    (w n k : ℕ) (rows : Rows) (r : UserState)
    → Level w n rows
    → get_elem? rows k ≡ some r
    → IsHash r.hash
Level-hash w n k [] r h e = cc
Level-hash w n zero (x ∷ rows) r h e =
    let same : x ≡ r = cc in subst (λ (y : UserState). IsHash y.hash) same h.2
Level-hash w n (suc k) (x ∷ rows) r h e = Level-hash w (suc n) k rows r h.3 e

Joins-children :
    (K : Crypto) (above below : Rows) (k : ℕ) (r : UserState)
    → Joins K above below
    → get_elem? above k ≡ some r
    → (a : UserState) × (b : UserState) × (get_elem? below (k * 2) ≡ some a)
      × (get_elem? below (k * 2 + 1) ≡ some b)
      × (r.hash ≡ join K a.hash b.hash)
Joins-children K [] below k r j e = cc
Joins-children K (x ∷ above) [] k r j e = absurd (j refl)
Joins-children K (x ∷ above) (a ∷ []) k r j e = absurd (j refl)
Joins-children K (x ∷ above) (a ∷ b ∷ below) zero r j e =
    let same : x ≡ r = cc in
    (a, b, refl, refl, subst (λ (y : UserState). y.hash ≡ join K a.hash b.hash) same j.0)
Joins-children K (x ∷ above) (a ∷ b ∷ below) (suc k) r j e =
    let (l, t, el, et, hash) = Joins-children K above below k r j.1 e in
    let even : suc (suc (k * 2)) ≡ suc k * 2 = omega arith in
    let odd : suc (suc (k * 2 + 1)) ≡ suc k * 2 + 1 = omega arith in
    (
      l,
      t,
      subst (λ m. get_elem? (a ∷ b ∷ below) m ≡ some l) even el,
      subst (λ m. get_elem? (a ∷ b ∷ below) m ≡ some t) odd et,
      hash,
    )

pub Level-no_path :
    (w n : ℕ) (rows : Rows) (q : Str)
    → Level w n rows
    → length q ≢ w
    → select (has_path q) rows ≡ []
Level-no_path w n rows q h ne =
    Level-other w n rows q h (λ k le lt e. ne (ap length (sym e) ∙ length-binary w k))

-- A node of another length stays the only one with its path.
pub Node-append :
    (w n : ℕ) (rows ys : Rows) (q : Str) (r : UserState)
    → Level w n ys
    → length q ≢ w
    → Node rows q r
    → Node (rows ++ ys) q r
Node-append w n rows ys q r h ne at =
    select-append (has_path q) rows ys ∙ rw (at, Level-no_path w n ys q h ne) refl

module _ (K : Crypto) (d i : ℕ) (rows xs ys : Rows) (b : Built K d (suc i) rows xs)
    (level : Level i 0 ys) (full : length ys ≡ 2 ^ i) (joins : Joins K ys xs) where
  new-Node : (k : ℕ) (r : UserState) → get_elem? ys k ≡ some r → Node (rows ++ ys) (binary i k) r
  new-Node k r e =
      select-append (has_path (binary i k)) rows ys
      ∙ ap (λ zs. zs ++ select (has_path (binary i k)) ys)
          (b.unborn (binary i k) (omega (arith, length-binary i k)))
      ∙ subst (λ j. Node ys (binary i j) r) (omega arith)
          (Level-Node i 0 k ys r level (omega (arith, full)) e)

  kept : (q : Str) (r : UserState) → i < length q → Node rows q r → Node (rows ++ ys) q r
  kept q r longer at = Node-append i 0 rows ys q r level (λ e. omega (arith, e, longer)) at

  new_tree :
      (q : Str) → IsBits q → length q ≡ i → (r : UserState) × Node (rows ++ ys) q r × IsHash r.hash
  new_tree q bits len =
      let (small, same) = IsBits-Exact i q len bits in
      let (r, e) = get_elem?-some ys (value q) (omega (arith, small, full)) in
      (
        r,
        subst (λ p. Node (rows ++ ys) p r) same (new-Node (value q) r e),
        Level-hash i 0 (value q) ys r level e,
      )

  new-Joined : (q : Str) → IsBits q → length q ≡ i → Joined K (rows ++ ys) q
  new-Joined q bits len =
      let (small, same) = IsBits-Exact i q len bits in
      let (r, e) = get_elem?-some ys (value q) (omega (arith, small, full)) in
      let (l, t, el, et, hash) = Joins-children K ys xs (value q) r joins e in
      record {
        node = r;
        left = l;
        right = t;
        at = subst (λ p. Node (rows ++ ys) p r) same (new-Node (value q) r e);
        at_left =
            subst (λ p. Node (rows ++ ys) p l)
              (binary-even i (value q) ∙ ap (λ p. p ++ 48 ∷ []) same)
              (kept (binary (suc i) (value q * 2)) l
                (omega (arith, length-binary (suc i) (value q * 2))) (b.nodes (value q * 2) l el));
        at_right =
            subst (λ p. Node (rows ++ ys) p t)
              (binary-odd i (value q) ∙ ap (λ p. p ++ 49 ∷ []) same)
              (kept (binary (suc i) (value q * 2 + 1)) t
                (omega (arith, length-binary (suc i) (value q * 2 + 1)))
                (b.nodes (value q * 2 + 1) t et));
        joins = hash;
      }

  old-Joined : (q : Str) → IsBits q → i < length q → length q < d → Joined K (rows ++ ys) q
  old-Joined q bits longer short =
      let j : Joined K rows q = b.merkle q bits (omega (arith, longer)) short in
      record {
        node = j.node;
        left = j.left;
        right = j.right;
        at = kept q j.node longer j.at;
        at_left =
            kept (q ++ 48 ∷ []) j.left (omega (arith, length-append q (48 ∷ []), longer)) j.at_left;
        at_right =
            kept (q ++ 49 ∷ []) j.right (omega (arith, length-append q (49 ∷ []), longer))
              j.at_right;
        joins = j.joins;
      }

  at_or_below : (q : Str) → i ≤ length q → (length q ≡ i) ⊎ (i < length q)
  at_or_below q le = ground arith

  -- One level more.
  pub Built-level : Built K d i (rows ++ ys) ys
  Built-level = record {
    level = level;
    full = full;
    found =
        select-append (λ row. row.level == i) rows ys
        ∙ rw (b.bare i (omega arith)) (Level-select_self i 0 ys level);
    bare = λ k lt.
        select-append (λ row. row.level == k) rows ys
        ∙ rw (b.bare k (omega (arith, lt)), Level-select i k 0 ys level (λ e. omega (arith, e, lt)))
            refl;
    nodes = new-Node;
    unborn = λ q lt.
        select-append (has_path q) rows ys
        ∙ rw
            (
              b.unborn q (omega (arith, lt)),
              Level-no_path i 0 ys q level (λ e. omega (arith, e, lt)),
            )
            refl;
    tree = λ q bits le short. elim (at_or_below q le) [
      | inl len ↦ new_tree q bits len
      | inr longer ↦
          let (r, at, hash) = b.tree q bits (omega (arith, longer)) short in
          (r, kept q r longer at, hash)
    ];
    merkle = λ q bits le short. elim (at_or_below q le) [
      | inl len ↦ new-Joined q bits len
      | inr longer ↦ old-Joined q bits longer short
    ];
  }
