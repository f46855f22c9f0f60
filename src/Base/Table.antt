-- ===== src/Base/Table.antt =====
-- A database table as the list of its rows, with the operations of the Prisma client that the
-- services call: `findFirst`/`findUnique`, `updateMany`, `deleteMany`, `count`. A row that is
-- created goes to the front.
use Prim.Native.Nat.{ℕ, ◌+◌}
use mathlib.Core.Path.{◌≡◌, refl, subst}
use mathlib.Core.Logic.{inl, inr}
use mathlib.Core.Bool.{Bool, true, false}
use mathlib.Core.Option.{Option, none, some}
use mathlib.Core.List.{List, [], ◌∷◌}
use native.Mathlib.Omega.{arith}
use veillend.Base.Tests.{ltb, if◌then◌else◌, Bool-cases}
use veillend.Base.Lists.{All, length}

no_zero : (n : ℕ) → ¬ (1 + n ≡ 0)
no_zero n h = omega arith

zero_rest : (n : ℕ) → 0 + n ≡ 0 → n ≡ 0
zero_rest n h = omega arith

module _ {ℓ} {A : Type ℓ} where
  unfoldable pub find_first : (A → Bool) → List A → Option A
  find_first p [] = none
  find_first p (x ∷ xs) = if p x then some x else find_first p xs

  unfoldable pub update_many : (A → Bool) → (A → A) → List A → List A
  update_many p f [] = []
  update_many p f (x ∷ xs) = (if p x then f x else x) ∷ update_many p f xs

  unfoldable pub delete_many : (A → Bool) → List A → List A
  delete_many p [] = []
  delete_many p (x ∷ xs) = let rest = delete_many p xs in if p x then rest else x ∷ rest

  unfoldable pub count_where : (A → Bool) → List A → ℕ
  count_where p [] = 0
  count_where p (x ∷ xs) = (if p x then 1 else 0) + count_where p xs

  -- `findFirst` with `orderBy: { key: 'desc' }`.
  abbrev pub later_of : (A → ℕ) → A → Option A → A
  later_of key a none = a
  later_of key a (some b) = if ltb (key a) (key b) then b else a

  unfoldable pub find_latest : (A → ℕ) → (A → Bool) → List A → Option A
  find_latest key p [] = none
  find_latest key p (x ∷ xs) =
      let rest = find_latest key p xs in if p x then some (later_of key x rest) else rest

  -- A row that is found is a row of the table that fits.
  pub find_first-holds :
      (p : A → Bool) (xs : List A) {a : A} → find_first p xs ≡ some a → p a ≡ true
  unfolding find_first
  find_first-holds p [] e = cc
  find_first-holds p (x ∷ xs) {a} e = ground (arith, find_first-holds p xs {a = a})

  pub count_where-delete_many :
      (p : A → Bool) (xs : List A) → length (delete_many p xs) + count_where p xs ≡ length xs
  unfolding delete_many count_where
  count_where-delete_many p [] = omega arith
  count_where-delete_many p (x ∷ xs) = ground (arith, count_where-delete_many p xs)

  unfoldable pub map_row : (A → A) → Option A → Option A
  map_row f none = none
  map_row f (some x) = some (f x)

  -- What is found after an update that keeps the test, whether or not it was updated.
  pub find_first-update_map :
      (q p : A → Bool) (f : A → A) (xs : List A)
      → ((x : A) → q (f x) ≡ q x)
      → find_first q (update_many p f xs) ≡ map_row (λ x. if p x then f x else x) (find_first q xs)
  unfolding find_first update_many map_row
  find_first-update_map q p f [] h = refl
  find_first-update_map q p f (x ∷ xs) h = elim (Bool-cases (p x)) [
    | inl t ↦ elim (Bool-cases (q x)) [
      | inl y ↦ rw (t, h x, y, t) refl
      | inr n ↦ rw (t, h x, n) (find_first-update_map q p f xs h)
    ]
    | inr t ↦ elim (Bool-cases (q x)) [
      | inl y ↦ rw (t, y, t) refl
      | inr n ↦ rw (t, n) (find_first-update_map q p f xs h)
    ]
  ]

  -- Nothing is left to find where no row fits.
  pub find_first-eq-none :
      (p : A → Bool) (xs : List A) → All (λ x. p x ≡ false) xs → find_first p xs ≡ none
  unfolding find_first
  find_first-eq-none p [] h = refl
  find_first-eq-none p (x ∷ xs) (e, h) = rw e (find_first-eq-none p xs h)

  pub count_where-eq-zero :
      (p : A → Bool) (xs : List A) → All (λ x. p x ≡ false) xs → count_where p xs ≡ 0
  unfolding count_where
  count_where-eq-zero p [] h = refl
  count_where-eq-zero p (x ∷ xs) (e, h) = rw e (omega (arith, count_where-eq-zero p xs h))

  -- And the converse.
  pub All-of-count_where :
      (p : A → Bool) (xs : List A) → count_where p xs ≡ 0 → All (λ x. p x ≡ false) xs
  unfolding count_where
  All-of-count_where p [] h = tt
  All-of-count_where p (x ∷ xs) h = elim (Bool-cases (p x)) [
    | inl t ↦ absurd (no_zero (count_where p xs) (rw t at h))
    | inr n ↦ (n, All-of-count_where p xs (zero_rest _ (rw n at h)))
  ]

  -- A row that is found is still found after an update that keeps the test, and was updated.
  pub find_first-update_many :
      (q : A → Bool) (f : A → A) (xs : List A) {a : A}
      → ((x : A) → q (f x) ≡ q x)
      → find_first q xs ≡ some a
      → find_first q (update_many q f xs) ≡ some (f a)
  unfolding find_first update_many
  find_first-update_many q f [] h e = cc
  find_first-update_many q f (x ∷ xs) {a} h e =
      ground (arith, find_first-update_many q f xs {a = a} h, h x)

  -- A row that is found is counted by every test that it passes.
  pub count_where-found :
      (q p : A → Bool) (xs : List A) {a : A}
      → find_first q xs ≡ some a
      → p a ≡ true
      → ¬ (count_where p xs ≡ 0)
  unfolding find_first count_where
  count_where-found q p [] e t h = cc
  count_where-found q p (x ∷ xs) {a} e t h = elim (Bool-cases (q x)) [
    | inl y ↦ let same : x ≡ a = ground arith in no_zero (count_where p xs) (rw (same, t) at h)
    | inr n ↦ count_where-found q p xs {a = a} (rw n at e) t (ground arith)
  ]

  -- A row that is not deleted is found as before.
  pub find_first-delete_many :
      (q p : A → Bool) (xs : List A) {a : A}
      → find_first q xs ≡ some a
      → ((x : A) → q x ≡ true → p x ≡ false)
      → find_first q (delete_many p xs) ≡ some a
  unfolding find_first delete_many
  find_first-delete_many q p [] e apart = e
  find_first-delete_many q p (x ∷ xs) {a} e apart = elim (Bool-cases (q x)) [
    | inl t ↦ rw (apart x t) (ground arith)
    | inr n ↦
        let ih = find_first-delete_many q p xs {a = a} (rw n at e) apart in
        elim (Bool-cases (p x)) [ inl d ↦ rw d ih | inr k ↦ rw k (ground arith) ]
  ]

module _ {ℓ κ} {A : Type ℓ} (P : A → Type κ) where
  pub find_first-All :
      (p : A → Bool) (xs : List A) {a : A} → All P xs → find_first p xs ≡ some a → P a
  unfolding find_first
  find_first-All p [] h e = cc
  find_first-All p (x ∷ xs) {a} (q, h) e = elim (Bool-cases (p x)) [
    | inl t ↦ let e' : x ≡ a = ground arith in subst P e' q
    | inr f ↦ find_first-All p xs h (ground arith)
  ]

  pub update_many-All :
      (p : A → Bool) (f : A → A) (xs : List A)
      → ((x : A) → P x → P (f x))
      → All P xs
      → All P (update_many p f xs)
  unfolding update_many
  update_many-All p f [] k h = tt
  update_many-All p f (x ∷ xs) k (q, h) = (
    elim (Bool-cases (p x)) [ inl t ↦ rw t (k x q) | inr n ↦ rw n q ],
    update_many-All p f xs k h,
  )

  pub delete_many-All : (p : A → Bool) (xs : List A) → All P xs → All P (delete_many p xs)
  unfolding delete_many
  delete_many-All p [] h = tt
  delete_many-All p (x ∷ xs) (q, h) = elim (Bool-cases (p x)) [
    | inl t ↦ rw t (delete_many-All p xs h)
    | inr n ↦ rw n (q, delete_many-All p xs h)
  ]

  -- Each row of the result is an updated row that fitted, or a row that did not.
  pub update_many-All_of :
      (p : A → Bool) (f : A → A) (xs : List A)
      → ((x : A) → p x ≡ true → P (f x))
      → ((x : A) → p x ≡ false → P x)
      → All P (update_many p f xs)
  unfolding update_many
  update_many-All_of p f [] k l = tt
  update_many-All_of p f (x ∷ xs) k l = (
    elim (Bool-cases (p x)) [ inl t ↦ rw t (k x t) | inr n ↦ rw n (l x n) ],
    update_many-All_of p f xs k l,
  )

  pub delete_many-All_of :
      (p : A → Bool) (xs : List A) → ((x : A) → p x ≡ false → P x) → All P (delete_many p xs)
  unfolding delete_many
  delete_many-All_of p [] l = tt
  delete_many-All_of p (x ∷ xs) l = elim (Bool-cases (p x)) [
    | inl t ↦ rw t (delete_many-All_of p xs l)
    | inr n ↦ rw n (l x n, delete_many-All_of p xs l)
  ]
