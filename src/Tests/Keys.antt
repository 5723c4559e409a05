-- ===== src/Tests/Keys.antt =====
-- A primary key that is numbered above the largest one.
use reddit_commander.Prelude.{
  ℕ, zero, suc, ◌≡◌, refl, ap, Bool, true, false, Bool-cases, inl, inr, List, [], ◌∷◌, ◌++◌, map,
  All, any, arith, ltb, ◌==◌, if◌then◌else◌,
}
use reddit_commander.Account.{Account, AutoKeys, without_id, first_key}

abbrev key_admits : List ℕ → List ℕ → Bool
key_admits held [] = true
key_admits held (zero ∷ new) = key_admits held new
key_admits held (suc k ∷ new) =
    let rest = key_admits (suc k ∷ held) new in if any (λ id. id == suc k) held then false else rest

abbrev largest : List ℕ → ℕ
largest [] = 0
largest (k ∷ ks) = let rest = largest ks in if ltb rest k then k else rest

abbrev own_key : ℕ → ℕ → ℕ
own_key next zero = next
own_key next (suc k) = suc k

abbrev number_from : ℕ → List Account → List Account
number_from next [] = []
number_from next (a ∷ accs) = record a { id = own_key next a.id } ∷ number_from (suc next) accs

pub number_from_lem :
    (next : ℕ) (xs : List Account) → map without_id (number_from next xs) ≡ map without_id xs
number_from_lem next [] = refl
number_from_lem next (x ∷ xs) = ap (λ ys. without_id x ∷ ys) (number_from_lem (suc next) xs)

pub own_key-first : (id : ℕ) → own_key 1 id ≡ first_key id
own_key-first zero = refl
own_key-first (suc id) = refl

pub key_admits-first : (id : ℕ) → key_admits [] (id ∷ []) ≡ true
key_admits-first zero = refl
key_admits-first (suc id) = refl

pub key_admits-blank : (held new : List ℕ) → All (λ id. id ≡ 0) new → key_admits held new ≡ true
key_admits-blank held [] h = refl
key_admits-blank held (zero ∷ new) h = key_admits-blank held new h.1
key_admits-blank held (suc k ∷ new) h = absurd (omega (arith, h.0))

pub key_admits-taken :
    (held before after : List ℕ) (id : ℕ)
    → any (λ k. k == suc id) held ≡ true
    → key_admits held (before ++ suc id ∷ after) ≡ false
key_admits-taken held [] after id h = rw h refl
key_admits-taken held (zero ∷ before) after id h = key_admits-taken held before after id h
key_admits-taken held (suc k ∷ before) after id h = elim (Bool-cases (any (λ i. i == suc k) held)) [
  | inl e ↦ rw e refl
  | inr e ↦
      let more : any (λ i. i == suc id) (suc k ∷ held) ≡ true = ground (arith, h) in
      rw (e, key_admits-taken (suc k ∷ held) before after id more) refl
]

abbrev pub numbering : AutoKeys
numbering = record {
  numbered = λ held xs. number_from (suc (largest held)) xs;
  numbered_lem = λ held xs. number_from_lem (suc (largest held)) xs;
  numbered_first = λ a. ap (λ k. record a { id = k } ∷ []) (own_key-first a.id);
  admits = key_admits;
  admits_first = key_admits-first;
  admits_blank = key_admits-blank;
  admits_taken = key_admits-taken;
}
