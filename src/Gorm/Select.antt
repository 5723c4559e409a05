-- ===== src/Gorm/Select.antt =====
-- What an update leaves for a later query of the same table.
use reddit_commander.Prelude.{
  ◌∙◌, ℕ, zero, suc, ◌≤◌, length, take, All, arith, ◌≡◌, refl, ap, Bool, true, false, Bool-cases,
  inl, inr, List, [], ◌∷◌, map, select,
}
use reddit_commander.Gorm.{map_where, IsAscending}

module _ {ℓ} {A : Type ℓ} (f : A → A) where
  -- The rows that were written are found again by the same test.
  pub select-map_where_self :
      (p : A → Bool) (xs : List A)
      → ((x : A) → p (f x) ≡ p x)
      → select p (map_where p f xs) ≡ map f (select p xs)
  select-map_where_self p [] keeps = refl
  select-map_where_self p (x ∷ xs) keeps = elim (Bool-cases (p x)) [
    | inl e ↦ rw (e, keeps x, e) (ap (λ ys. f x ∷ ys) (select-map_where_self p xs keeps))
    | inr e ↦ rw (e, e) (select-map_where_self p xs keeps)
  ]

  -- A query for other rows does not see the write.
  pub select-map_where_ne :
      (p q : A → Bool) (xs : List A)
      → ((x : A) → q (f x) ≡ q x)
      → ((x : A) → p x ≡ true → q x ≡ false)
      → select q (map_where p f xs) ≡ select q xs
  select-map_where_ne p q [] keeps apart = refl
  select-map_where_ne p q (x ∷ xs) keeps apart = elim (Bool-cases (p x)) [
    | inl e ↦ rw (e, keeps x, apart x e) (select-map_where_ne p q xs keeps apart)
    | inr e ↦ rw (e, select-map_where_ne p q xs keeps apart)
  ]

module _ {ℓ} {A : Type ℓ} where
  -- What a query returns passes its test.
  pub select-All : (p : A → Bool) (xs : List A) → All (λ x. p x ≡ true) (select p xs)
  select-All p [] = tt
  select-All p (x ∷ xs) = elim (Bool-cases (p x)) [
    | inl e ↦ rw e (e, select-All p xs)
    | inr e ↦ rw e (select-All p xs)
  ]

  -- A property that the written rows gain and the other rows have for lack of the test.
  pub map_where-All {κ} :
      (P : A → Type κ) (p : A → Bool) (f : A → A) (xs : List A)
      → ((x : A) → p x ≡ true → P (f x))
      → ((x : A) → p x ≡ false → P x)
      → All P (map_where p f xs)
  map_where-All P p f [] written left = tt
  map_where-All P p f (x ∷ xs) written left = elim (Bool-cases (p x)) [
    | inl e ↦ rw e (written x e, map_where-All P p f xs written left)
    | inr e ↦ rw e (left x e, map_where-All P p f xs written left)
  ]

  pub take-All {κ} : (P : A → Type κ) (n : ℕ) (xs : List A) → All P xs → All P (take n xs)
  take-All P zero xs h = tt
  take-All P (suc n) [] h = tt
  take-All P (suc n) (x ∷ xs) h = (h.0, take-All P n xs h.1)

  pub take-IsAscending :
      (key : A → ℕ) (n : ℕ) (xs : List A) → IsAscending key xs → IsAscending key (take n xs)
  take-IsAscending key zero xs h = tt
  take-IsAscending key (suc n) [] h = tt
  take-IsAscending key (suc zero) (x ∷ xs) h = tt
  take-IsAscending key (suc (suc n)) (x ∷ []) h = tt
  take-IsAscending key (suc (suc n)) (x ∷ y ∷ xs) h =
      (h.0, take-IsAscending key (suc n) (y ∷ xs) h.1)

  pub length-take : (n : ℕ) (xs : List A) → length (take n xs) ≤ n
  length-take zero xs = omega arith
  length-take (suc n) [] = omega arith
  length-take (suc n) (x ∷ xs) = omega (arith, length-take n xs)

  pub take_all : (n : ℕ) (xs : List A) → length xs ≤ n → take n xs ≡ xs
  take_all zero [] h = refl
  take_all zero (x ∷ xs) h = absurd (omega arith)
  take_all (suc n) [] h = refl
  take_all (suc n) (x ∷ xs) h = ap (λ ys. x ∷ ys) (take_all n xs (omega arith))

  pub length-take_all :
      (n : ℕ) (xs ys : List A)
      → length xs ≡ length ys
      → length ys ≤ n
      → length (take n xs) ≡ length ys
  length-take_all n xs ys same room = ap length (take_all n xs (omega (arith, same, room))) ∙ same

  pub All-select {κ} :
      (P : A → Type κ) (p : A → Bool) (xs : List A) → All P xs → All P (select p xs)
  All-select P p [] h = tt
  All-select P p (x ∷ xs) h = elim (Bool-cases (p x)) [
    | inl e ↦ rw e (h.0, All-select P p xs h.1)
    | inr e ↦ rw e (All-select P p xs h.1)
  ]

  -- A query does not miss removed rows that it would not have returned.
  pub select-select :
      (p keep : A → Bool) (xs : List A)
      → All (λ x. p x ≡ true → keep x ≡ true) xs
      → select p (select keep xs) ≡ select p xs
  select-select p keep [] h = refl
  select-select p keep (x ∷ xs) h = elim (Bool-cases (keep x)) [
    | inl k ↦ elim (Bool-cases (p x)) [
      | inl e ↦ rw (k, e) (ap (λ ys. x ∷ ys) (select-select p keep xs h.1))
      | inr e ↦ rw (k, e) (select-select p keep xs h.1)
    ]
    | inr k ↦ elim (Bool-cases (p x)) [
      | inl e ↦ let kept : keep x ≡ true = h.0 e in cc
      | inr e ↦ rw (k, e) (select-select p keep xs h.1)
    ]
  ]

  -- What rows have that pass the test, the found rows have.
  pub All-found {κ} :
      (P : A → Type κ) (p : A → Bool) (xs : List A)
      → All (λ x. p x ≡ true → P x) xs
      → All P (select p xs)
  All-found P p [] h = tt
  All-found P p (x ∷ xs) h = elim (Bool-cases (p x)) [
    | inl e ↦ rw e (h.0 e, All-found P p xs h.1)
    | inr e ↦ rw e (All-found P p xs h.1)
  ]
