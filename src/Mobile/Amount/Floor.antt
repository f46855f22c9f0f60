-- ===== src/Mobile/Amount/Floor.antt =====
-- The number that a decimal amount is scaled to.
use veillend.Base.{
  ℕ, zero, suc, ◌+◌, ◌*◌, ◌-◌, ◌^◌, ◌≤◌, ◌<◌, true, some, List, [], ◌∷◌, ◌++◌, ◌≡◌, refl, ◌∙◌, ap,
  arith, ltb, pos, length, All, ◌+ℤ◌, length-append,
}
use native.Mathlib.Nat.{add-mul, mul_assoc, mul_comm}
use veillend.Mobile.Amount.{
  digit_value, read_digits, big_int, dot, before_dot, after_dot, padded, to_scaled_big_int,
}

abbrev pub IsDigit : ℕ → Type 0
IsDigit c = (b'0' ≤ c) × (c ≤ b'9')

abbrev pub AreDigits : List ℕ → Type 0
AreDigits = All IsDigit

-- The number that decimal digits stand for.
abbrev pub decimal : List ℕ → ℕ
decimal [] = 0
decimal (c ∷ cs) = (c - b'0') * 10 ^ length cs + decimal cs

digit_value_lem : (c : ℕ) → IsDigit c → digit_value c ≡ c - b'0'
unfolding digit_value
digit_value_lem c h = ground arith

digit_below : (c : ℕ) → IsDigit c → ltb (digit_value c) 10 ≡ true
digit_below c h = ground (arith, digit_value_lem c h)

pow_suc : (n : ℕ) → 10 ^ suc n ≡ 10 * 10 ^ n
pow_suc n = omega arith

move_digit : (a c v p q : ℕ) → q ≡ 10 * p → (a * 10 + c) * p + v ≡ a * q + (c * p + v)
move_digit a c v p q e =
    omega (arith, add-mul (a * 10) c p, mul_assoc a 10 p, ap (λ (t : ℕ). a * t) e)

read_digits_lem :
    (acc : ℕ) (cs : List ℕ)
    → AreDigits cs
    → read_digits 10 acc cs ≡ some (acc * 10 ^ length cs + decimal cs)
unfolding read_digits
read_digits_lem acc [] h = ap some (omega arith)
read_digits_lem acc (c ∷ cs) (d, ds) = rw (digit_below c d) (
    read_digits_lem (acc * 10 + digit_value c) cs ds
    ∙ rw (digit_value_lem c d)
        (ap some (move_digit acc (c - b'0') (decimal cs) (10 ^ length cs) _ (pow_suc (length cs)))))

big_int_lem : (cs : List ℕ) → AreDigits cs → big_int cs ≡ some (pos (decimal cs))
unfolding big_int
big_int_lem [] h = refl
big_int_lem (c ∷ []) (d, ds) = ground (arith, digit_below c d, read_digits_lem 0 (c ∷ []) (d, ds))
big_int_lem (c ∷ e ∷ cs) (d, (k, ks)) = ground (
  arith,
  digit_below c d,
  read_digits_lem 0 (c ∷ e ∷ cs) (d, (k, ks)),
  read_digits_lem 0 (b'0' ∷ e ∷ cs) ((omega arith, omega arith), (k, ks)),
)

before_dot-digits : (xs ys : List ℕ) → AreDigits xs → before_dot (xs ++ dot ∷ ys) ≡ xs
unfolding before_dot
before_dot-digits [] ys h = refl
before_dot-digits (c ∷ xs) ys (d, ds) = ground (arith, before_dot-digits xs ys ds)

before_dot-all : (xs : List ℕ) → AreDigits xs → before_dot xs ≡ xs
unfolding before_dot
before_dot-all [] h = refl
before_dot-all (c ∷ xs) (d, ds) = ground (arith, before_dot-all xs ds)

after_dot-digits : (xs ys : List ℕ) → AreDigits xs → AreDigits ys → after_dot (xs ++ dot ∷ ys) ≡ ys
unfolding after_dot
after_dot-digits [] ys h k = before_dot-all ys k
after_dot-digits (c ∷ xs) ys (d, ds) k = ground (arith, after_dot-digits xs ys ds k)

padded-digits : (d : ℕ) (cs : List ℕ) → AreDigits cs → AreDigits (padded d cs)
unfolding padded
padded-digits zero cs h = tt
padded-digits (suc d) [] h = ((omega arith, omega arith), padded-digits d [] tt)
padded-digits (suc d) (c ∷ cs) (k, ks) = (k, padded-digits d cs ks)

length-padded : (d : ℕ) (cs : List ℕ) → length (padded d cs) ≡ d
unfolding padded
length-padded zero cs = refl
length-padded (suc d) [] = ap suc (length-padded d [])
length-padded (suc d) (c ∷ cs) = ap suc (length-padded d cs)

ten_out : (x y : ℕ) → x * (10 * y) ≡ 10 * (x * y)
ten_out x y =
    omega (arith, mul_assoc x 10 y, mul_assoc 10 x y, ap (λ (t : ℕ). t * y) (mul_comm x 10))

swap_right : (c a b : ℕ) → c * a * b ≡ c * b * a
swap_right c a b =
    omega (arith, mul_assoc c a b, mul_assoc c b a, ap (λ (t : ℕ). c * t) (mul_comm a b))

-- `f / b` is `v / a` rounded down.
abbrev IsFloor : (f b v a : ℕ) → Type 0
IsFloor f b v a = (f * b ≤ v * a) × (v * a < (f + 1) * b)

-- Another whole part keeps this.
IsFloor-add : (c f b v a : ℕ) → IsFloor f b v a → IsFloor (c * a + f) b (c * b + v) a
IsFloor-add c f b v a (lo, hi) = (
  omega (arith, lo, add-mul (c * a) f b, add-mul (c * b) v a, swap_right c a b),
  omega (
    arith,
    hi,
    add-mul (c * a + f) 1 b,
    add-mul (c * a) f b,
    add-mul f 1 b,
    add-mul (c * b) v a,
    swap_right c a b,
  ),
)

IsFloor-ten : (f b v a : ℕ) → IsFloor f b v a → IsFloor f (10 * b) v (10 * a)
IsFloor-ten f b v a (lo, hi) =
    (omega (arith, lo, ten_out f b, ten_out v a), omega (arith, hi, ten_out (f + 1) b, ten_out v a))

nine : (k : ℕ) → k ≤ 9 → 9 - k + k ≡ 9
nine k h = omega arith

decimal-lt : (cs : List ℕ) → AreDigits cs → decimal cs < 10 ^ length cs
decimal-lt [] h = omega arith
decimal-lt (c ∷ cs) (d, ds) =
    let p : ℕ = 10 ^ length cs in
    omega (
      arith,
      decimal-lt cs ds,
      pow_suc (length cs),
      add-mul (9 - (c - b'0')) (c - b'0') p,
      ap (λ (t : ℕ). t * p) (nine (c - b'0') (omega (arith, d))),
    )

padded-nil : (d : ℕ) → decimal (padded d []) ≡ 0
unfolding padded
padded-nil zero = refl
padded-nil (suc d) = omega (arith, padded-nil d)

padded-IsFloor :
    (d : ℕ) (cs : List ℕ)
    → AreDigits cs
    → IsFloor (decimal (padded d cs)) (10 ^ length cs) (decimal cs) (10 ^ d)
unfolding padded
padded-IsFloor zero cs h = (omega arith, omega (arith, decimal-lt cs h))
padded-IsFloor (suc d) [] h = (omega (arith, padded-nil d), omega (arith, padded-nil d))
padded-IsFloor (suc d) (c ∷ cs) (k, ks) =
    rw (length-padded d cs, pow_suc (length cs), pow_suc d)
      (IsFloor-ten (((c - b'0') * 10 ^ d) + decimal (padded d cs)) (10 ^ length cs)
        ((c - b'0') * 10 ^ length cs + decimal cs) (10 ^ d)
        (IsFloor-add (c - b'0') _ (10 ^ length cs) (decimal cs) (10 ^ d) (padded-IsFloor d cs ks)))

pow_add : (m n : ℕ) → 10 ^ (m + n) ≡ 10 ^ m * 10 ^ n
pow_add zero n = let e : 0 + n ≡ n = omega arith in omega (arith, ap (λ (t : ℕ). 10 ^ t) e)
pow_add (suc m) n =
    let e : suc m + n ≡ suc (m + n) = omega arith in
    omega (
      arith,
      pow_add m n,
      ap (λ (t : ℕ). 10 ^ t) e,
      pow_suc (m + n),
      pow_suc m,
      mul_assoc 10 (10 ^ m) (10 ^ n),
      ap (λ (t : ℕ). t * 10 ^ n) (pow_suc m),
    )

pos_add : (a b : ℕ) → pos a +ℤ pos b ≡ pos (a + b)
unfolding ◌+ℤ◌
pos_add a b = ground arith

decimal-append : (xs ys : List ℕ) → decimal (xs ++ ys) ≡ decimal xs * 10 ^ length ys + decimal ys
decimal-append [] ys = omega arith
decimal-append (x ∷ xs) ys =
    rw (length-append xs ys, pow_add (length xs) (length ys))
      (omega (
        arith,
        decimal-append xs ys,
        add-mul ((x - b'0') * 10 ^ length xs) (decimal xs) (10 ^ length ys),
        mul_assoc (x - b'0') (10 ^ length xs) (10 ^ length ys),
      ))

-- The amount of a text of digits, a point and digits is its decimal value times the power of ten of
-- the asset's decimals, rounded down, where the asset has at most 22 decimals, up to which
-- JavaScript's powers of ten are exact.
pub to_scaled-IsFloor :
    (power : ℕ → ℕ) (whole part : List ℕ) (d : ℕ)
    → ((e : ℕ) → e ≤ 22 → power e ≡ 10 ^ e)
    → d ≤ 22
    → AreDigits whole
    → AreDigits part
    → (n : ℕ) × (to_scaled_big_int power (whole ++ dot ∷ part) d ≡ some (pos n))
      × (n * 10 ^ length part ≤ decimal (whole ++ part) * 10 ^ d)
      × (decimal (whole ++ part) * 10 ^ d < (n + 1) * 10 ^ length part)
unfolding to_scaled_big_int
to_scaled-IsFloor power whole part d exact few h k =
    let floor =
      IsFloor-add (decimal whole) _ (10 ^ length part) (decimal part) (10 ^ d)
        (padded-IsFloor d part k) in
    (
      decimal whole * 10 ^ d + decimal (padded d part),
      rw
          (
            exact d few,
            before_dot-digits whole part h,
            after_dot-digits whole part h k,
            big_int_lem whole h,
            big_int_lem (padded d part) (padded-digits d part k),
          )
          (ap some (pos_add (decimal whole * 10 ^ d) (decimal (padded d part)))),
      rw (decimal-append whole part) floor.0,
      rw (decimal-append whole part) floor.1,
    )
