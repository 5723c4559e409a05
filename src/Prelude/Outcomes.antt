-- ===== src/Prelude/Outcomes.antt =====
-- What a Go call ends in: a value, an error value, or a panic.
use mathlib.Core.Path.{◌≡◌, refl, ap, sym, subst}
use mathlib.Core.Logic.{◌⊎◌, ◌≢◌, inl, inr}
use Prim.Native.Nat.{suc}
use native.Mathlib.Omega.{arith}
use mathlib.Core.Option.{Option, none, some}

pub data Error : Type 0 where
  record_not_found db_fault bad_hex bad_number pack_failed : Error
  depth_mismatch too_many_accounts no_accounts not_coordinator leaf_not_zero : Error
  no_match call_failed tx_pending insert_failed : Error

pub data Outcome {ℓ} (A : Type ℓ) : Type ℓ where
  ok : A → Outcome A
  err : Error → Outcome A
  panic : Outcome A

abbrev pub bind {ℓ κ} : {A : Type ℓ} {B : Type κ} → Outcome A → (A → Outcome B) → Outcome B
bind (ok a) f = f a
bind (err e) f = err e
bind panic f = panic

pub ok_injective {ℓ} : {A : Type ℓ} {a b : A} → ok a ≡ ok b → a ≡ b
ok_injective {a = a} h = ap (λ m. elim m [ ok x ↦ x | err e ↦ a | panic ↦ a ]) h

pub Outcome-cases {ℓ} :
    {A : Type ℓ} (r : Outcome A)
    → ((a : A) × (r ≡ ok a)) ⊎ ((e : Error) × (r ≡ err e)) ⊎ (r ≡ panic)
Outcome-cases (ok a) = inl (a, refl)
Outcome-cases (err e) = inr (inl (e, refl))
Outcome-cases panic = inr (inr refl)

abbrev Panicked {ℓ} : {A : Type ℓ} → Outcome A → Type 0
Panicked (ok a) = Unit
Panicked (err e) = Unit
Panicked panic = 0 ≡ suc 0

pub panic≢ok {ℓ} : {A : Type ℓ} {a : A} → panic ≢ ok a
panic≢ok h = omega (arith, subst Panicked (sym h) tt)

pub err≢panic {ℓ} : {A : Type ℓ} (e : Error) (r : Outcome A) → r ≡ err e → r ≢ panic
err≢panic e r h k = cc

-- Inversion of a successful chain.
pub bind-eq-ok {ℓ κ} :
    {A : Type ℓ} {B : Type κ} (m : Outcome A) (f : A → Outcome B) {b : B}
    → bind m f ≡ ok b
    → (a : A) × (m ≡ ok a) × (f a ≡ ok b)
bind-eq-ok (ok a) f h = (a, refl, h)
bind-eq-ok (err e) f h = cc
bind-eq-ok panic f h = cc

-- An access at an index: out of range it panics.
abbrev pub or_panic {ℓ} : {A : Type ℓ} → Option A → Outcome A
or_panic none = panic
or_panic (some a) = ok a

abbrev pub failure_of {ℓ} : {A : Type ℓ} → Outcome A → Option Error
failure_of (ok a) = none
failure_of (err e) = some e
failure_of panic = none
