-- ===== src/Deposit/Queue.antt =====
-- core/state.go: deposits that wait beside the rows of a tree.
use reddit_commander.Prelude.{
  ℕ, ◌<◌, ◌≡◌, refl, sym, ap, ◌∙◌, subst, Bool, true, false, ◌&&◌, Bool-cases, inl, inr, List, [],
  ◌∷◌, ◌++◌, map, append-nil, length, All, All-append, All-imp, select, select-append, arith, ◌==◌,
  list_eq, list_eq_ne, list_eq_refl, if◌then◌else◌,
}
use reddit_commander.Bytes.{Str, ByteArray, to_string}
use reddit_commander.Bytes.Hex.{encode}
use reddit_commander.Constants.{uninitialized_path, status_pending}
use reddit_commander.NodePath.{IsBits}
use reddit_commander.Merkle.{Crypto}
use reddit_commander.Gorm.{Table, map_where}
use reddit_commander.State.{UserState, has_path}
use reddit_commander.State.Rows.{Rows}
use reddit_commander.Deposit.{is_terminal_under}
use reddit_commander.Deposit.Sound.{Sound, Sound-nodes, Placed, not_IsBits}
use reddit_commander.Deposit.Enter.{waiting_under}
use reddit_commander.Deposit.Closed.{is_pending, attach}

select-none {ℓ} :
    {A : Type ℓ} (p : A → Bool) (xs : List A) → All (λ x. p x ≡ false) xs → select p xs ≡ []
select-none p [] h = refl
select-none p (x ∷ xs) h = rw h.0 (select-none p xs h.1)

select_always {ℓ} :
    {A : Type ℓ} (p : A → Bool) (xs : List A) → All (λ x. p x ≡ true) xs → select p xs ≡ xs
select_always p [] h = refl
select_always p (x ∷ xs) h = rw h.0 (ap (λ ys. x ∷ ys) (select_always p xs h.1))

map_where-append {ℓ} :
    {A : Type ℓ} (p : A → Bool) (f : A → A) (xs ys : List A)
    → map_where p f (xs ++ ys) ≡ map_where p f xs ++ map_where p f ys
map_where-append p f [] ys = refl
map_where-append p f (x ∷ xs) ys =
    ap (λ zs. (if p x then f x else x) ∷ zs) (map_where-append p f xs ys)

map_where-none {ℓ} :
    {A : Type ℓ} (p : A → Bool) (f : A → A) (xs : List A)
    → All (λ x. p x ≡ false) xs
    → map_where p f xs ≡ xs
map_where-none p f [] h = refl
map_where-none p f (x ∷ xs) h = rw h.0 (ap (λ ys. x ∷ ys) (map_where-none p f xs h.1))

map_where_always {ℓ} :
    {A : Type ℓ} (p : A → Bool) (f : A → A) (xs : List A)
    → All (λ x. p x ≡ true) xs
    → map_where p f xs ≡ map f xs
map_where_always p f [] h = refl
map_where_always p f (x ∷ xs) h = rw h.0 (ap (λ ys. f x ∷ ys) (map_where_always p f xs h.1))

-- A deposit that waits.
pub record Waiting (r : UserState) : Type 0 where
  pub pending : r.status ≡ status_pending
  pub nowhere : r.path ≡ uninitialized_path

abbrev pub NonePending : Rows → Type 0
NonePending = All (λ r. is_pending r ≡ false)

Waiting-pending : (r : UserState) → Waiting r → is_pending r ≡ true
Waiting-pending r w = rw w.pending refl

Waiting-node : (q : Str) → IsBits q → (r : UserState) → Waiting r → has_path q r ≡ false
Waiting-node q bits r w =
    list_eq_ne r.path q (λ e. not_IsBits (subst IsBits (sym e ∙ w.nowhere) bits))

Waiting-terminal :
    (c : ℕ) (u : Str)
    → IsBits (c ∷ u)
    → (r : UserState) → Waiting r
    → is_terminal_under (c ∷ u) r ≡ false
Waiting-terminal c u (inl e, _) r w = rw (w.nowhere, e) refl
Waiting-terminal c u (inr e, _) r w = rw (w.nowhere, e) refl

Waiting-Placed : (d : ℕ) (r : UserState) → Waiting r → Placed d r
Waiting-Placed d r w = record { waiting = λ e. w.nowhere; terminal = λ e. inl w.nowhere }

pub Waiting-attach :
    (T : Table UserState) (root : ByteArray) (r : UserState) → Waiting r → Waiting (attach T root r)
Waiting-attach T root r w = record { pending = w.pending; nowhere = w.nowhere }

waits_test :
    (T : Table UserState) (root : ByteArray) (x : UserState)
    → Waiting x
    → (list_eq (attach T root x).created_by_deposit_sub_tree (to_string root)
        && (attach T root x).status == status_pending)
      ≡ true
unfolding to_string
waits_test T root x w =
    rw
      (
        T.overwrite_set b'0' (b'x' ∷ encode root) x.created_by_deposit_sub_tree,
        list_eq_refl (encode root),
      )
      (Waiting-pending x w)

waits_here :
    (T : Table UserState) (root : ByteArray) (ds : Rows)
    → All Waiting ds
    → waiting_under root (map (attach T root) ds) ≡ map (attach T root) ds
waits_here T root [] h = refl
waits_here T root (x ∷ ds) h =
    rw (waits_test T root x h.0) (ap (λ xs. attach T root x ∷ xs) (waits_here T root ds h.1))

none_waits : (root : ByteArray) (rows : Rows) → NonePending rows → waiting_under root rows ≡ []
none_waits root [] h = refl
none_waits root (x ∷ rows) h =
    elim (Bool-cases (list_eq x.created_by_deposit_sub_tree (to_string root))) [
      | inl e ↦ rw (e, h.0) (none_waits root rows h.1)
      | inr e ↦ rw e (none_waits root rows h.1)
    ]

module _ (rows ds : Rows) (waiting : All Waiting ds) where
  pub nodes_beside :
      (q : Str) → IsBits q → select (has_path q) (rows ++ ds) ≡ select (has_path q) rows
  nodes_beside q bits =
      select-append (has_path q) rows ds
      ∙ ap (λ xs. select (has_path q) rows ++ xs)
          (select-none (has_path q) ds (All-imp ds (Waiting-node q bits) waiting))
      ∙ append-nil (select (has_path q) rows)

  pub terminals_beside :
      (u : Str)
      → 0 < length u
      → IsBits u
      → select (is_terminal_under u) (rows ++ ds) ≡ select (is_terminal_under u) rows
  terminals_beside [] pos bits = absurd (omega arith)
  terminals_beside (c ∷ u) pos bits =
      select-append (is_terminal_under (c ∷ u)) rows ds
      ∙ ap (λ xs. select (is_terminal_under (c ∷ u)) rows ++ xs)
          (select-none (is_terminal_under (c ∷ u)) ds
            (All-imp ds (Waiting-terminal c u bits) waiting))
      ∙ append-nil (select (is_terminal_under (c ∷ u)) rows)

  pub Sound-beside : (K : Crypto) (d : ℕ) → Sound K d rows → Sound K d (rows ++ ds)
  Sound-beside K d sound =
      Sound-nodes K d rows (rows ++ ds) nodes_beside
        (All-append (Placed d) rows ds sound.placed (All-imp ds (Waiting-Placed d) waiting)) sound

  module _ (settled : NonePending rows) (T : Table UserState) (root : ByteArray) where
    pub attach_beside :
        map_where is_pending (attach T root) (rows ++ ds) ≡ rows ++ map (attach T root) ds
    attach_beside =
        map_where-append is_pending (attach T root) rows ds
        ∙ ap (λ xs. xs ++ map_where is_pending (attach T root) ds)
            (map_where-none is_pending (attach T root) rows settled)
        ∙ ap (λ xs. rows ++ xs)
            (map_where_always is_pending (attach T root) ds (All-imp ds Waiting-pending waiting))

    pub waiting_beside :
        waiting_under root (rows ++ map (attach T root) ds) ≡ map (attach T root) ds
    waiting_beside =
        select-append _ rows (map (attach T root) ds)
        ∙ ap (λ xs. xs ++ waiting_under root (map (attach T root) ds))
            (none_waits root rows settled)
        ∙ waits_here T root ds waiting
