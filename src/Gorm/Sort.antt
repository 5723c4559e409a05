-- ===== src/Gorm/Sort.antt =====
-- Insertion sort by a numeric key, for the table in memory.
use mathlib.Core.List.Perm
use reddit_commander.Prelude.{
  ℕ, suc, ◌≤◌, ◌≡◌, refl, ap, ◌∙◌, Bool-cases, inl, inr, Perm, List, [], ◌∷◌, length, All, any,
  arith, Bool, ◌||◌, leb, leb→le, leb→ge, if◌then◌else◌,
}
use reddit_commander.Gorm.{IsAscending}

module _ {ℓ} {A : Type ℓ} (key : A → ℕ) where
  abbrev pub place : A → List A → List A
  place a [] = a ∷ []
  place a (x ∷ xs) = if leb (key a) (key x) then a ∷ x ∷ xs else x ∷ place a xs

  abbrev pub sort : List A → List A
  sort [] = []
  sort (x ∷ xs) = place x (sort xs)

  place-All : (P : A → Type 0) (a : A) (xs : List A) → P a → All P xs → All P (place a xs)
  place-All P a [] h hs = (h, tt)
  place-All P a (x ∷ xs) h hs = elim (Bool-cases (leb (key a) (key x))) [
    | inl e ↦ rw e (h, hs)
    | inr e ↦ rw e (hs.0, place-All P a xs h hs.1)
  ]

  pub sort-All : (P : A → Type 0) (xs : List A) → All P xs → All P (sort xs)
  sort-All P [] hs = tt
  sort-All P (x ∷ xs) hs = place-All P x (sort xs) hs.0 (sort-All P xs hs.1)

  any-place : (p : A → Bool) (a : A) (xs : List A) → any p (place a xs) ≡ (p a || any p xs)
  any-place p a [] = refl
  any-place p a (x ∷ xs) = elim (Bool-cases (leb (key a) (key x))) [
    | inl e ↦ rw e refl
    | inr e ↦ rw (e, any-place p a xs) (ground arith)
  ]

  pub any-sort : (p : A → Bool) (xs : List A) → any p (sort xs) ≡ any p xs
  any-sort p [] = refl
  any-sort p (x ∷ xs) = rw (any-place p x (sort xs), any-sort p xs) refl

  length-place : (a : A) (xs : List A) → length (place a xs) ≡ suc (length xs)
  length-place a [] = refl
  length-place a (x ∷ xs) = elim (Bool-cases (leb (key a) (key x))) [
    | inl e ↦ rw e refl
    | inr e ↦ rw e (ap suc (length-place a xs))
  ]

  pub length-sort : (xs : List A) → length (sort xs) ≡ length xs
  length-sort [] = refl
  length-sort (x ∷ xs) = length-place x (sort xs) ∙ ap suc (length-sort xs)

  -- A key before an ascending list that starts no lower.
  abbrev Before : ℕ → List A → Type 0
  Before k [] = Unit
  Before k (x ∷ xs) = k ≤ key x

  cons-IsAscending :
      (x : A) (xs : List A) → Before (key x) xs → IsAscending key xs → IsAscending key (x ∷ xs)
  cons-IsAscending x [] b h = tt
  cons-IsAscending x (y ∷ xs) b h = (b, h)

  tail-IsAscending :
      (x : A) (xs : List A) → IsAscending key (x ∷ xs) → IsAscending key xs × Before (key x) xs
  tail-IsAscending x [] h = (tt, tt)
  tail-IsAscending x (y ∷ xs) h = (h.1, h.0)

  place-Before : (k : ℕ) (a : A) (xs : List A) → k ≤ key a → Before k xs → Before k (place a xs)
  place-Before k a [] h b = h
  place-Before k a (x ∷ xs) h b = elim (Bool-cases (leb (key a) (key x))) [
    | inl e ↦ rw e h
    | inr e ↦ rw e b
  ]

  place-IsAscending : (a : A) (xs : List A) → IsAscending key xs → IsAscending key (place a xs)
  place-IsAscending a [] h = tt
  place-IsAscending a (x ∷ xs) h = elim (Bool-cases (leb (key a) (key x))) [
    | inl e ↦ rw e (leb→le (key a) (key x) e, h)
    | inr e ↦ rw e (
        cons-IsAscending x (place a xs)
          (place-Before (key x) a xs (leb→ge (key a) (key x) e) (tail-IsAscending x xs h).1)
          (place-IsAscending a xs (tail-IsAscending x xs h).0))
  ]

  pub sort-IsAscending : (xs : List A) → IsAscending key (sort xs)
  sort-IsAscending [] = tt
  sort-IsAscending (x ∷ xs) = place-IsAscending x (sort xs) (sort-IsAscending xs)

  place-Perm : (a : A) (xs : List A) → Perm (place a xs) (a ∷ xs)
  place-Perm a [] = Perm.rfl
  place-Perm a (x ∷ xs) = elim (Bool-cases (leb (key a) (key x))) [
    | inl e ↦ rw e Perm.rfl
    | inr e ↦ rw e (Perm.trans (Perm.cons x (place-Perm a xs)) (Perm.swap a x xs))
  ]

  pub sort-Perm : (xs : List A) → Perm (sort xs) xs
  sort-Perm [] = Perm.rfl
  sort-Perm (x ∷ xs) = Perm.trans (place-Perm x (sort xs)) (Perm.cons x (sort-Perm xs))
