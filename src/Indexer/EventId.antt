-- ===== src/Indexer/EventId.antt =====
-- `extractEventIndex` of indexer.repository.ts. A text is the list of its UTF-16 code units.
pub mod Laws
use veillend.Base.{
  ℕ, ◌+◌, ◌-◌, ◌*◌, ◌%◌, ◌^◌, ◌<◌, ◌≡◌, refl, Bool, true, false, ◌||◌, ◌&&◌, Option, none, some,
  List, [], ◌∷◌, ◌==◌, ltb, leb, contains, if◌then◌else◌, length, arith,
}

-- `eventId.split('-')`: there is always a first part.
unfoldable pub split_dash : List ℕ → List ℕ × List (List ℕ)
split_dash [] = ([], [])
split_dash (c ∷ cs) =
    let (first, rest) = split_dash cs in if c == b'-' then ([], first ∷ rest) else (c ∷ first, rest)

-- The last part, where there is more than one.
unfoldable pub last_part : List (List ℕ) → Option (List ℕ)
last_part [] = none
last_part (p ∷ []) = some p
last_part (p ∷ q ∷ ps) = last_part (q ∷ ps)

-- What ECMAScript counts as white space or a line terminator.
unfoldable pub is_space : ℕ → Bool
is_space c =
    (leb 9 c && leb c 13)
    || ((leb 8192 c && leb c 8202)
        || contains c (32 ∷ 160 ∷ 5760 ∷ 8232 ∷ 8233 ∷ 8239 ∷ 8287 ∷ 12288 ∷ 65279 ∷ []))

unfoldable pub skip_spaces : List ℕ → List ℕ
skip_spaces [] = []
skip_spaces (c ∷ cs) = let rest = skip_spaces cs in if is_space c then rest else c ∷ cs

unfoldable pub skip_plus : List ℕ → List ℕ
skip_plus [] = []
skip_plus (c ∷ cs) = if c == b'+' then cs else c ∷ cs

abbrev pub is_digit : ℕ → Bool
is_digit c = leb b'0' c && leb c b'9'

-- The digits in front, onto the number that was read before them.
unfoldable pub read_digits : ℕ → List ℕ → ℕ
read_digits n [] = n
read_digits n (c ∷ cs) =
    let more = read_digits (n * 10 + (c - b'0')) cs in if is_digit c then more else n

unfoldable pub starts_with_digit : List ℕ → Bool
starts_with_digit [] = false
starts_with_digit (c ∷ cs) = is_digit c

-- `parseInt(part, 10)`, none for NaN. A part holds no '-'.
unfoldable pub parse_int : List ℕ → Option ℕ
parse_int s =
    let body = skip_plus (skip_spaces s) in
    if starts_with_digit body then some (read_digits 0 body) else none

-- `(hash * 31 + code) & 0x7fffffff`, over the codes from the left.
unfoldable pub hash_from : ℕ → List ℕ → ℕ
hash_from h [] = h
hash_from h (c ∷ cs) = hash_from ((h * 31 + c) % 2 ^ 31) cs

unfoldable pub index_or_hash : List ℕ → Option ℕ → ℕ
index_or_hash id none = hash_from 0 id
index_or_hash id (some n) = n

unfoldable pub index_of_part : List ℕ → Option (List ℕ) → ℕ
index_of_part id none = hash_from 0 id
index_of_part id (some part) = index_or_hash id (parse_int part)

unfoldable pub extract_event_index : List ℕ → ℕ
extract_event_index [] = 0
extract_event_index (c ∷ cs) =
    let (first, rest) = split_dash (c ∷ cs) in index_of_part (c ∷ cs) (last_part rest)
