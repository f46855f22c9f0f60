-- ===== src/Indexer/EventId/Laws.antt =====
-- The value of `extractEventIndex` of indexer.repository.ts on ids with and without a '-'.
use veillend.Base.{
  ℕ, ◌+◌, ◌-◌, ◌*◌, ◌%◌, ◌^◌, ◌<◌, ◌≡◌, refl, ap, ◌∙◌, true, some, List, [], ◌∷◌, ◌++◌, All, ◌==◌,
  arith, Bool-cases, inl, inr,
}
use veillend.Indexer.EventId.{
  split_dash, last_part, is_space, skip_spaces, skip_plus, is_digit, read_digits, starts_with_digit,
  parse_int, hash_from, index_or_hash, index_of_part, extract_event_index,
}

-- The hash without the wrap-around: the codes as digits in base 31.
pub polynomial : ℕ → List ℕ → ℕ
polynomial h [] = h
polynomial h (c ∷ cs) = polynomial (h * 31 + c) cs

polynomial_mod :
    (h k : ℕ) (cs : List ℕ)
    → h % 2 ^ 31 ≡ k % 2 ^ 31
    → polynomial h cs % 2 ^ 31 ≡ polynomial k cs % 2 ^ 31
unfolding polynomial
polynomial_mod h k [] e = e
polynomial_mod h k (c ∷ cs) e = polynomial_mod (h * 31 + c) (k * 31 + c) cs (omega arith)

hash_from-polynomial :
    (h : ℕ) (cs : List ℕ) → h < 2 ^ 31 → hash_from h cs ≡ polynomial h cs % 2 ^ 31
unfolding hash_from polynomial
hash_from-polynomial h [] small = omega arith
hash_from-polynomial h (c ∷ cs) small =
    hash_from-polynomial ((h * 31 + c) % 2 ^ 31) cs (omega arith)
    ∙ polynomial_mod ((h * 31 + c) % 2 ^ 31) (h * 31 + c) cs (omega arith)

hashed : (id : List ℕ) → (split_dash id).1 ≡ [] → extract_event_index id ≡ hash_from 0 id
unfolding extract_event_index index_of_part last_part hash_from
hashed [] plain = refl
hashed (c ∷ cs) plain = rw (plain) refl

-- The index of an id without a '-' is its value as a number in base 31, modulo 2^31, and below it.
pub extract_event_index_hashed :
    (id : List ℕ)
    → (split_dash id).1 ≡ []
    → (extract_event_index id ≡ polynomial 0 id % 2 ^ 31) × (extract_event_index id < 2 ^ 31)
extract_event_index_hashed id plain =
    let e = hashed id plain ∙ hash_from-polynomial 0 id (omega arith) in (e, omega (arith, e))

-- The number that decimal digits denote.
pub decimal : ℕ → List ℕ → ℕ
decimal n [] = n
decimal n (c ∷ cs) = decimal (n * 10 + (c - b'0')) cs

abbrev pub Digits : List ℕ → Type 0
Digits cs = All (λ c. is_digit c ≡ true) cs

split_plain : (ds : List ℕ) → Digits ds → split_dash ds ≡ (ds, [])
unfolding split_dash
split_plain [] h = refl
split_plain (c ∷ cs) (d, h) = ground (arith, split_plain cs h)

read_decimal : (n : ℕ) (ds : List ℕ) → Digits ds → read_digits n ds ≡ decimal n ds
unfolding read_digits decimal
read_decimal n [] h = refl
read_decimal n (c ∷ cs) (d, h) = rw d (read_decimal (n * 10 + (c - b'0')) cs h)

parse_decimal :
    (c : ℕ) (cs : List ℕ) → Digits (c ∷ cs) → parse_int (c ∷ cs) ≡ some (decimal 0 (c ∷ cs))
unfolding parse_int skip_spaces skip_plus starts_with_digit is_space
parse_decimal c cs (d, h) = ground (arith, read_decimal 0 (c ∷ cs) (d, h))

last_more :
    (x : List ℕ) (xs : List (List ℕ)) (ds : List ℕ)
    → last_part xs ≡ some ds
    → last_part (x ∷ xs) ≡ some ds
unfolding last_part
last_more x [] ds h = cc
last_more x (y ∷ ys) ds h = h

-- The parts after the first '-' of a text end in the part after its last one.
last-split : (p ds : List ℕ) → Digits ds → last_part (split_dash (p ++ b'-' ∷ ds)).1 ≡ some ds
unfolding split_dash last_part
last-split [] ds h = ap (λ x. last_part (x.0 ∷ x.1)) (split_plain ds h)
last-split (c ∷ p) ds h = elim (Bool-cases (c == b'-')) [
  | inl t ↦ rw t (
      last_more (split_dash (p ++ b'-' ∷ ds)).0 (split_dash (p ++ b'-' ∷ ds)).1 ds
        (last-split p ds h))
  | inr f ↦ rw f (last-split p ds h)
]

-- An id that ends in a '-' and decimal digits has their number as its index.
pub extract_event_index_numbered :
    (p : List ℕ) (d : ℕ) (ds : List ℕ)
    → Digits (d ∷ ds)
    → extract_event_index (p ++ b'-' ∷ d ∷ ds) ≡ decimal 0 (d ∷ ds)
unfolding extract_event_index index_of_part index_or_hash
extract_event_index_numbered [] d ds h = rw (last-split [] (d ∷ ds) h, parse_decimal d ds h) refl
extract_event_index_numbered (c ∷ p) d ds h =
    rw (last-split (c ∷ p) (d ∷ ds) h, parse_decimal d ds h) refl
