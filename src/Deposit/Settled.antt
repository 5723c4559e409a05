-- ===== src/Deposit/Settled.antt =====
-- core/state.go: the rows that are not pending, and the columns that every row has.
use reddit_commander.Prelude.{
  ℕ, ◌≡◌, ◌∙◌, ap, sym, refl, subst, Bool, true, not, Bool-cases, inl, inr, List, [], ◌∷◌, ◌++◌,
  map, append-nil, select, select-append, All, All-imp, All-append, length, arith,
}
use reddit_commander.Bytes.{Slice, ByteArray}
use reddit_commander.Merkle.{Crypto}
use reddit_commander.Gorm.{Table, map_where}
use reddit_commander.Gorm.Select.{select-select, All-select}
use reddit_commander.State.{UserState, new_pending_user_state}
use reddit_commander.State.Rows.{Rows}
use reddit_commander.State.Skeleton.{skeleton}
use reddit_commander.Deposit.Sound.{Placed, All-map, map-All, stays}
use reddit_commander.Deposit.Closed.{Closed, is_pending, attach}

abbrev pub is_settled : UserState → Bool
is_settled row = not (is_pending row)

-- The nodes of the tree, without their data and hashes.
abbrev pub settled : Rows → Rows
settled rows = map skeleton (select is_settled rows)

abbrev pub SameSettled : Rows → Rows → Type 0
SameSettled xs ys = settled ys ≡ settled xs

settled-skeleton : (rows : Rows) → settled rows ≡ select is_settled (map skeleton rows)
settled-skeleton [] = refl
settled-skeleton (x ∷ rows) = elim (Bool-cases (is_pending x)) [
  | inl e ↦ rw e (settled-skeleton rows)
  | inr e ↦ rw e (ap (λ ys. skeleton x ∷ ys) (settled-skeleton rows))
]

always {ℓ κ} : {A : Type ℓ} (P : A → Type κ) (xs : List A) → ((x : A) → P x) → All P xs
always P [] h = tt
always P (x ∷ xs) h = (h x, always P xs h)

settled-stays : (id : ℕ) (x : UserState) → is_settled x ≡ true → stays id x ≡ true
settled-stays id x h = ground arith

settled-attached :
    (T : Table UserState) (root : ByteArray) (xs : Rows)
    → settled (map_where is_pending (attach T root) xs) ≡ settled xs
settled-attached T root [] = refl
settled-attached T root (x ∷ xs) = elim (Bool-cases (is_pending x)) [
  | inl e ↦ rw (e, e) (settled-attached T root xs)
  | inr e ↦ rw (e, e) (ap (λ ys. skeleton x ∷ ys) (settled-attached T root xs))
]

settled-queued :
    (K : Crypto) (id : ℕ) (payload : Slice) (xs : Rows)
    → settled (xs ++ new_pending_user_state K id payload ∷ []) ≡ settled xs
unfolding new_pending_user_state
settled-queued K id payload xs = ap (map skeleton) (
    select-append is_settled xs (new_pending_user_state K id payload ∷ [])
    ∙ append-nil (select is_settled xs))

pub SameSettled-Closed : (K : Crypto) (T : Table UserState) → Closed K T SameSettled
SameSettled-Closed K T = record {
  trans = λ xs ys zs h k. k ∙ h;
  rewritten = λ xs ys e. settled-skeleton ys ∙ ap (select is_settled) e ∙ sym (settled-skeleton xs);
  deleted = λ id xs.
      ap (map skeleton) (select-select is_settled (stays id) xs (always _ xs (settled-stays id)));
  queued = settled-queued K;
  attached = settled-attached T;
}

-- Every row has its level from its path, and stands where a tree of depth `d` and its deposits have
-- their rows.
pub record Shaped (d : ℕ) (r : UserState) : Type 0 where
  pub placed : Placed d r
  pub level : r.level ≡ length r.path

abbrev pub KeepsShape : ℕ → Rows → Rows → Type 0
KeepsShape d xs ys = All (Shaped d) xs → All (Shaped d) ys

Shaped-skeleton : (d : ℕ) (r : UserState) → Shaped d r → Shaped d (skeleton r)
Shaped-skeleton d r h = record {
  placed = record { waiting = h.placed.waiting; terminal = h.placed.terminal };
  level = h.level;
}

skeleton-Shaped : (d : ℕ) (r : UserState) → Shaped d (skeleton r) → Shaped d r
skeleton-Shaped d r h = record {
  placed = record { waiting = h.placed.waiting; terminal = h.placed.terminal };
  level = h.level;
}

pub Shaped-attach :
    (T : Table UserState) (d : ℕ) (root : ByteArray) (r : UserState)
    → Shaped d r
    → Shaped d (attach T root r)
Shaped-attach T d root r h = record {
  placed = record { waiting = h.placed.waiting; terminal = h.placed.terminal };
  level = h.level;
}

pub Shaped-queued :
    (K : Crypto) (d id : ℕ) (payload : Slice) → Shaped d (new_pending_user_state K id payload)
unfolding new_pending_user_state
Shaped-queued K d id payload = record {
  placed = record { waiting = λ e. refl; terminal = λ e. inl refl };
  level = refl;
}

All-map_where {ℓ κ} :
    {A : Type ℓ} (P : A → Type κ) (p : A → Bool) (f : A → A) (xs : List A)
    → ((x : A) → P x → P (f x))
    → All P xs
    → All P (map_where p f xs)
All-map_where P p f [] keep h = tt
All-map_where P p f (x ∷ xs) keep h = elim (Bool-cases (p x)) [
  | inl e ↦ rw e (keep x h.0, All-map_where P p f xs keep h.1)
  | inr e ↦ rw e (h.0, All-map_where P p f xs keep h.1)
]

pub KeepsShape-Closed : (K : Crypto) (T : Table UserState) (d : ℕ) → Closed K T (KeepsShape d)
KeepsShape-Closed K T d = record {
  trans = λ xs ys zs h k all. k (h all);
  rewritten = λ xs ys e all. All-imp ys (skeleton-Shaped d) (
      map-All (Shaped d) skeleton ys (
        subst (All (Shaped d)) (sym e)
          (All-map (Shaped d) skeleton xs (All-imp xs (Shaped-skeleton d) all))));
  deleted = λ id xs all. All-select (Shaped d) (stays id) xs all;
  queued = λ id payload xs all. All-append (Shaped d) xs _ all (Shaped-queued K d id payload, tt);
  attached = λ root xs all.
      All-map_where (Shaped d) is_pending (attach T root) xs (Shaped-attach T d root) all;
}
