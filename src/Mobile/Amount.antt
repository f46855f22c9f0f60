-- ===== src/Mobile/Amount.antt =====
-- `toScaledBigInt` of lib/soroban/transactions.ts: a decimal text as a whole number of the asset's
-- smallest unit. A text is the list of its code units. `10 ** decimals` is a number of JavaScript,
-- and so a parameter, `power`.
pub mod Floor
use veillend.Base.{
  ℕ, zero, suc, ◌+◌, ◌*◌, ◌-◌, ◌^◌, ◌&&◌, ◌||◌, ◌==◌, Bool, true, false, Option, none, some, List,
  [], ◌∷◌, ◌++◌, if◌then◌else◌, leb, ltb, ℤ, pos, negsuc, ◌+ℤ◌, pos_part, neg_part, sub_ℕ, is_some,
}

abbrev between : ℕ → ℕ → ℕ → Bool
between lo hi c = leb lo c && leb c hi

abbrev is_space : ℕ → Bool
is_space c = c == 32 || between 9 13 c || c == 160 || c == 65279

skip_spaces : List ℕ → List ℕ
skip_spaces [] = []
skip_spaces (c ∷ cs) = if is_space c then skip_spaces cs else c ∷ cs

all_spaces : List ℕ → Bool
all_spaces [] = true
all_spaces (c ∷ cs) = is_space c && all_spaces cs

-- The value of a digit, letters included, and 99 for what is none.
unfoldable pub digit_value : ℕ → ℕ
digit_value c =
    if between b'0' b'9' c
    then c - b'0'
    else if between b'a' b'f' c
    then c - b'a' + 10
    else if between b'A' b'F' c
    then c - b'A' + 10
    else 99

-- The digits of a base up to the spaces at the end.
unfoldable pub read_digits : (base acc : ℕ) → List ℕ → Option ℕ
unfolding digit_value all_spaces
read_digits base acc [] = some acc
read_digits base acc (c ∷ cs) =
    let rest = read_digits base (acc * base + digit_value c) cs in
    if ltb (digit_value c) base then rest else if all_spaces (c ∷ cs) then some acc else none

unfoldable pub read_some : (base : ℕ) → List ℕ → Option ℕ
unfolding read_digits
read_some base [] = none
read_some base (c ∷ cs) = if ltb (digit_value c) base then read_digits base 0 (c ∷ cs) else none

abbrev as_pos : Option ℕ → Option ℤ
as_pos none = none
as_pos (some n) = some (pos n)

abbrev as_neg : Option ℕ → Option ℤ
as_neg none = none
as_neg (some zero) = some (pos 0)
as_neg (some (suc n)) = some (negsuc n)

-- `0x`, `0o` and `0b`, or a decimal number.
read_prefixed : ℕ → List ℕ → Option ℤ
unfolding read_some
read_prefixed c cs =
    if c == b'x' || c == b'X'
    then as_pos (read_some 16 cs)
    else if c == b'o' || c == b'O'
    then as_pos (read_some 8 cs)
    else if c == b'b' || c == b'B'
    then as_pos (read_some 2 cs)
    else as_pos (read_digits 10 0 (b'0' ∷ c ∷ cs))

unfoldable pub read_unsigned : List ℕ → Option ℤ
unfolding read_prefixed
read_unsigned (a ∷ b ∷ cs) =
    if a == b'0' then read_prefixed b cs else as_pos (read_some 10 (a ∷ b ∷ cs))
read_unsigned cs = as_pos (read_some 10 cs)

-- `BigInt(text)`; `none` is its SyntaxError.
read_trimmed : List ℕ → Option ℤ
unfolding read_unsigned read_some
read_trimmed [] = some (pos 0)
read_trimmed (c ∷ cs) =
    if c == b'-'
    then as_neg (read_some 10 cs)
    else if c == b'+'
    then as_pos (read_some 10 cs)
    else read_unsigned (c ∷ cs)

unfoldable pub big_int : List ℕ → Option ℤ
unfolding read_trimmed skip_spaces
big_int cs = read_trimmed (skip_spaces cs)

abbrev pub dot : ℕ
dot = b'.'

-- The first two parts of `amount.split('.')`.
unfoldable pub before_dot : List ℕ → List ℕ
before_dot [] = []
before_dot (c ∷ cs) = let rest = before_dot cs in if c == dot then [] else c ∷ rest

unfoldable pub after_dot : List ℕ → List ℕ
unfolding before_dot
after_dot [] = []
after_dot (c ∷ cs) = let rest = after_dot cs in if c == dot then before_dot cs else rest

-- `fracPart.slice(0, decimals).padEnd(decimals, '0')`
unfoldable pub padded : ℕ → List ℕ → List ℕ
padded zero cs = []
padded (suc d) [] = b'0' ∷ padded d []
padded (suc d) (c ∷ cs) = c ∷ padded d cs

abbrev times : ℤ → ℕ → ℤ
times (pos n) k = pos (n * k)
times (negsuc n) k = sub_ℕ 0 (suc n * k)

abbrev scaled : Option ℤ → ℕ → Option ℤ → Option ℤ
scaled (some i) p (some f) = some (times i p +ℤ f)
scaled _ p _ = none

-- `power d` is `BigInt(10 ** d)`.
unfoldable pub to_scaled_big_int : (power : ℕ → ℕ) → List ℕ → ℕ → Option ℤ
unfolding big_int before_dot after_dot padded
to_scaled_big_int power amount d =
    scaled (big_int (before_dot amount)) (power d) (big_int (padded d (after_dot amount)))
