-- ===== src/Gorm/Counted.antt =====
-- How many rows a query finds: in another order, and after an update.
use mathlib.Core.Logic.{∥∥₁_elim}
use mathlib.Core.List.{Permᴰ}
use native.Mathlib.Nat.{ℕ_set}
use reddit_commander.Prelude.{
  ℕ, zero, suc, ◌+◌, ◌≤◌, ◌≡◌, refl, ap, ◌∙◌, Bool, true, false, Bool-cases, inl, inr, List, [],
  ◌∷◌, ◌++◌, Perm, length, take, drop, select, All, arith, if◌then◌else◌,
}
use reddit_commander.Gorm.{map_where}

module _ {ℓ} {A : Type ℓ} where
  abbrev pub found : (A → Bool) → List A → ℕ
  found p xs = length (select p xs)

  found-cons :
      (p : A → Bool) (x : A) (xs : List A) → found p (x ∷ xs) ≡ (if p x then 1 else 0) + found p xs
  found-cons p x xs = elim (Bool-cases (p x)) [
    | inl e ↦ rw e (omega arith)
    | inr e ↦ rw e (omega arith)
  ]

  found-Permᴰ : (p : A → Bool) {xs ys : List A} → Permᴰ xs ys → found p xs ≡ found p ys
  found-Permᴰ p Permᴰ.nil = refl
  found-Permᴰ p (Permᴰ.cons {a} {b} {l₁ = xs} {l₂ = ys} e perm) =
      rw (found-cons p a xs, found-cons p b ys, e) (omega (arith, found-Permᴰ p perm))
  found-Permᴰ p (Permᴰ.swap {a} {b} {a'} {b'} {l = xs} e e') =
      rw (e, e')
        (omega (
          arith,
          found-cons p b' (a' ∷ xs),
          found-cons p a' xs,
          found-cons p a' (b' ∷ xs),
          found-cons p b' xs,
        ))
  found-Permᴰ p (Permᴰ.trans perm perm') = found-Permᴰ p perm ∙ found-Permᴰ p perm'

  -- The order does not matter.
  pub found-Perm : (p : A → Bool) (xs ys : List A) → Perm xs ys → found p xs ≡ found p ys
  found-Perm p xs ys perm = ∥∥₁_elim perm (ℕ_set _ _) (λ d. found-Permᴰ p d)

  pub found_every : (p : A → Bool) (xs : List A) → All (λ x. p x ≡ true) xs → found p xs ≡ length xs
  found_every p [] h = refl
  found_every p (x ∷ xs) h = rw h.0 (ap suc (found_every p xs h.1))

  pub found-append : (p : A → Bool) (xs ys : List A) → found p (xs ++ ys) ≡ found p xs + found p ys
  found-append p [] ys = omega arith
  found-append p (x ∷ xs) ys =
      omega (arith, found-cons p x (xs ++ ys), found-cons p x xs, found-append p xs ys)

  -- The rows that an update takes out of a query's reach are those of the query that it wrote.
  pub found-map_where :
      (p b : A → Bool) (f : A → A) (xs : List A)
      → ((x : A) → p (f x) ≡ false)
      → found p (map_where b f xs) + found b (select p xs) ≡ found p xs
  found-map_where p b f [] gone = refl
  found-map_where p b f (x ∷ xs) gone = elim (Bool-cases (b x)) [
    | inl e ↦ elim (Bool-cases (p x)) [
      | inl h ↦ rw (e, gone x, h, e) (omega (arith, found-map_where p b f xs gone))
      | inr h ↦ rw (e, gone x, h) (found-map_where p b f xs gone)
    ]
    | inr e ↦ elim (Bool-cases (p x)) [
      | inl h ↦ rw (e, h, e) (omega (arith, found-map_where p b f xs gone))
      | inr h ↦ rw (e, h) (found-map_where p b f xs gone)
    ]
  ]

  pub take-append-drop : (n : ℕ) (xs : List A) → take n xs ++ drop n xs ≡ xs
  take-append-drop zero xs = refl
  take-append-drop (suc n) [] = refl
  take-append-drop (suc n) (x ∷ xs) = ap (λ ys. x ∷ ys) (take-append-drop n xs)

  pub length-take_full : (n : ℕ) (xs : List A) → n ≤ length xs → length (take n xs) ≡ n
  length-take_full zero xs h = refl
  length-take_full (suc n) [] h = absurd (omega arith)
  length-take_full (suc n) (x ∷ xs) h = ap suc (length-take_full n xs (omega arith))
