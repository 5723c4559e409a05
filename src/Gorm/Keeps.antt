-- ===== src/Gorm/Keeps.antt =====
-- Calls that only move a store along a relation, whatever fails, and how they are put together.
use reddit_commander.Prelude.{◌≡◌, ◌≢◌, refl, ap, sym, ◌∙◌, panic≢ok, Outcome, ok, err, panic}
use reddit_commander.Gorm.{Exec, lift, continue, ◌>>=◌}

-- What every sequence of steps keeps.
pub record Preorder {S : Type 0} (R : S → S → Type 0) : Type 0 where
  pub stay : (s : S) → R s s
  pub trans : (s t u : S) → R s t → R t u → R s u

abbrev pub Keeps {ℓ} : {S : Type 0} {A : Type ℓ} → (S → S → Type 0) → Exec S A → Type 0
Keeps R m = (s : _) → R s (m s).1

module _ {S : Type 0} (R : S → S → Type 0) (order : Preorder R) where
  pub Keeps-continue {ℓ κ} :
      {A : Type ℓ} {B : Type κ} (r : Outcome A) (f : A → Exec S B)
      → ((a : A) → Keeps R (f a))
      → Keeps R (continue r f)
  Keeps-continue (ok a) f k = k a
  Keeps-continue (err e) f k = order.stay
  Keeps-continue panic f k = order.stay

  pub Keeps-bind {ℓ κ} :
      {A : Type ℓ} {B : Type κ} (m : Exec S A) (f : A → Exec S B)
      → Keeps R m
      → ((a : A) → Keeps R (f a))
      → Keeps R (m >>= f)
  Keeps-bind m f h k s =
      order.trans s (m s).1 ((m >>= f) s).1 (h s) (Keeps-continue (m s).0 f k (m s).1)

-- A call that never panics and leaves what `view` shows of the store.
abbrev pub Harmless {ℓ} : {S : Type 0} {V : Type 0} {A : Type ℓ} → (S → V) → Exec S A → Type ℓ
Harmless view m = (s : _) → ((m s).0 ≢ panic) × (view (m s).1 ≡ view s)

module _ {S : Type 0} {V : Type 0} (view : S → V) where
  pub Harmless-pure {ℓ} : {A : Type ℓ} (a : A) → Harmless view (λ s. (ok a, s))
  Harmless-pure a s = (λ h. panic≢ok (sym h), refl)

  pub Harmless-continue {ℓ κ} :
      {A : Type ℓ} {B : Type κ} (r : Outcome A) (f : A → Exec S B)
      → r ≢ panic
      → ((a : A) → Harmless view (f a))
      → Harmless view (continue r f)
  Harmless-continue (ok a) f fine k s = k a s
  Harmless-continue (err e) f fine k s = (λ h. cc, refl)
  Harmless-continue panic f fine k s = absurd (fine refl)

  pub Harmless-bind {ℓ κ} :
      {A : Type ℓ} {B : Type κ} (m : Exec S A) (f : A → Exec S B)
      → Harmless view m
      → ((a : A) → Harmless view (f a))
      → Harmless view (m >>= f)
  Harmless-bind m f h k s =
      let rest = Harmless-continue (m s).0 f (h s).0 k (m s).1 in (rest.0, rest.1 ∙ (h s).1)

  pub Harmless-lift {ℓ} : {A : Type ℓ} (r : Outcome A) → r ≢ panic → Harmless view (lift r)
  Harmless-lift r fine s = (fine, refl)

-- A call that a change of the store, which it does not see, may come before or after.
abbrev pub Commutes {ℓ} : {S : Type 0} {A : Type ℓ} → (S → S) → Exec S A → Type ℓ
Commutes t m = (s : _) → m (t s) ≡ ((m s).0, t (m s).1)

module _ {S : Type 0} (t : S → S) where
  pub Commutes-continue {ℓ κ} :
      {A : Type ℓ} {B : Type κ} (r : Outcome A) (f : A → Exec S B)
      → ((a : A) → Commutes t (f a))
      → Commutes t (continue r f)
  Commutes-continue (ok a) f k s = k a s
  Commutes-continue (err e) f k s = refl
  Commutes-continue panic f k s = refl

  pub Commutes-bind {ℓ κ} :
      {A : Type ℓ} {B : Type κ} (m : Exec S A) (f : A → Exec S B)
      → Commutes t m
      → ((a : A) → Commutes t (f a))
      → Commutes t (m >>= f)
  Commutes-bind {A} m f h k s =
      ap (λ (p : Outcome A × S). continue p.0 f p.1) (h s) ∙ Commutes-continue (m s).0 f k (m s).1
