-- ===== src/Mobile/Pin/Compare.antt =====
-- What the comparison of digests, which looks at every code unit, decides.
use Prim.Native.Nat.{bit_or, bit_xor}
use veillend.Base.{
  ℕ, zero, suc, ◌<◌, ◌&&◌, ◌==◌, Bool, true, false, List, [], ◌∷◌, ◌≡◌, ◌↔◌, refl, sym, ◌∙◌, ap,
  arith, length, All, ltb, ltb→lt, ==_iff, Bool-cases, inl, inr,
}
use veillend.Mobile.Pin.{Digests, hash_pin, difference, same_digest, verify_pin}

module _ (test : ℕ → ℕ → Bool) where
  row_holds : (row columns : ℕ) → Bool
  row_holds row zero = true
  row_holds row (suc k) = row_holds row k && test row k

  table_holds : (rows columns : ℕ) → Bool
  unfolding row_holds
  table_holds zero columns = true
  table_holds (suc r) columns = table_holds r columns && row_holds r columns

  row_entry : (row columns c : ℕ) → c < columns → row_holds row columns ≡ true → test row c ≡ true
  unfolding row_holds
  row_entry row zero c below whole = absurd (omega arith)
  row_entry row (suc k) c below whole = ground (arith, row_entry row k c)

  table_entry :
      (rows columns r c : ℕ)
      → r < rows
      → c < columns
      → table_holds rows columns ≡ true
      → test r c ≡ true
  unfolding table_holds
  table_entry zero columns r c below inside whole = absurd (omega arith)
  table_entry (suc k) columns r c below inside whole =
      ground (arith, table_entry k columns r c, row_entry r columns c)

-- Two operations on 7 bits: each stays below 128, and is 0 where the code relies on it.
abbrev same_bool : Bool → Bool → Bool
same_bool true b = b
same_bool false true = false
same_bool false false = true

bits_at : ℕ → ℕ → Bool
bits_at a b =
    ltb (bit_xor a b) 128
    && (same_bool (bit_xor a b == 0) (a == b)
        && (ltb (bit_or a b) 128 && same_bool (bit_or a b == 0) (a == 0 && b == 0)))

bits_table : table_holds bits_at 128 128 ≡ true
unfolding table_holds bits_at
bits_table = refl

bits_known : (a b : ℕ) → a < 128 → b < 128 → bits_at a b ≡ true
bits_known a b p q = table_entry bits_at 128 128 a b p q bits_table

and_left : (a b : Bool) → (a && b) ≡ true → a ≡ true
and_left a b h = ground arith

and_right : (a b : Bool) → (a && b) ≡ true → b ≡ true
and_right a b h = ground arith

same_bool_eq : (a b : Bool) → same_bool a b ≡ true → a ≡ b
same_bool_eq true b h = sym h
same_bool_eq false true h = cc
same_bool_eq false false h = refl

record Bits (a b : ℕ) : Type 0 where
  xor_below : bit_xor a b < 128
  xor_zero : (bit_xor a b == 0) ≡ (a == b)
  or_below : bit_or a b < 128
  or_zero : (bit_or a b == 0) ≡ (a == 0 && b == 0)

ands :
    (a b c d : Bool)
    → (a && (b && (c && d))) ≡ true
    → (a ≡ true) × (b ≡ true) × (c ≡ true) × (d ≡ true)
ands a b c d h = ground arith

bits : (a b : ℕ) → a < 128 → b < 128 → Bits a b
unfolding bits_at
bits a b p q =
    let h =
      ands (ltb (bit_xor a b) 128) (same_bool (bit_xor a b == 0) (a == b)) (ltb (bit_or a b) 128)
        (same_bool (bit_or a b == 0) (a == 0 && b == 0)) (bits_known a b p q) in
    record {
      xor_below = ltb→lt _ _ h.0;
      xor_zero = same_bool_eq (bit_xor a b == 0) (a == b) h.1;
      or_below = ltb→lt _ _ h.2;
      or_zero = same_bool_eq (bit_or a b == 0) (a == 0 && b == 0) h.3;
    }

-- Equality of two texts.
abbrev pub same_text : List ℕ → List ℕ → Bool
same_text [] [] = true
same_text (x ∷ xs) (y ∷ ys) = x == y && same_text xs ys
same_text _ _ = false

abbrev pub IsAscii : List ℕ → Type 0
IsAscii = All (λ c. c < 128)

and_true : (a : Bool) → a ≡ (a && true)
and_true true = refl
and_true false = refl

and_both : (a b : Bool) → a ≡ true → b ≡ true → (a && b) ≡ true
and_both a b h g = ground arith

clash : {b : Bool} → b ≡ false → b ≡ true → ⊥
clash e f = cc

not_true-false : (b : Bool) → (b ≡ true → ⊥) → false ≡ b
not_true-false true h = absurd (h refl)
not_true-false false h = refl

and_assoc : (a b c : Bool) → ((a && b) && c) ≡ (a && (b && c))
and_assoc true b c = refl
and_assoc false b c = refl

-- The loop ends at 0 exactly where it began there and the texts agree.
difference-zero :
    (diff : ℕ) (xs ys : List ℕ)
    → diff < 128
    → IsAscii xs
    → IsAscii ys
    → length xs ≡ length ys
    → (difference diff xs ys == 0) ≡ (diff == 0 && same_text xs ys)
unfolding difference
difference-zero diff [] [] d p q n = and_true (diff == 0)
difference-zero diff [] (y ∷ ys) d p q n = absurd (omega (arith, n))
difference-zero diff (x ∷ xs) [] d p q n = absurd (omega (arith, n))
difference-zero diff (x ∷ xs) (y ∷ ys) d (p, ps) (q, qs) n =
    let b = bits x y p q in
    let c = bits diff (bit_xor x y) d b.xor_below in
    difference-zero (bit_or diff (bit_xor x y)) xs ys c.or_below ps qs (omega arith)
    ∙ ap (λ t. t && same_text xs ys) (c.or_zero ∙ ap (λ t. diff == 0 && t) b.xor_zero)
    ∙ and_assoc (diff == 0) (x == y) (same_text xs ys)

same_text-length : (xs ys : List ℕ) → same_text xs ys ≡ true → length xs ≡ length ys
same_text-length [] [] h = refl
same_text-length [] (y ∷ ys) h = cc
same_text-length (x ∷ xs) [] h = cc
same_text-length (x ∷ xs) (y ∷ ys) h =
    ap suc (same_text-length xs ys (and_right (x == y) (same_text xs ys) h))

same_text_eq : (xs ys : List ℕ) → (same_text xs ys ≡ true) ↔ (xs ≡ ys)
same_text_eq [] [] = (λ _. refl, λ _. refl)
same_text_eq [] (y ∷ ys) = (λ h. cc, λ h. cc)
same_text_eq (x ∷ xs) [] = (λ h. cc, λ h. cc)
same_text_eq (x ∷ xs) (y ∷ ys) = (
  λ h.
      let e = (==_iff x y).0 (and_left (x == y) (same_text xs ys) h) in
      let es = (same_text_eq xs ys).0 (and_right (x == y) (same_text xs ys) h) in λ i. e i ∷ es i,
  λ h.
      let e : x ≡ y = cc in
      let es : xs ≡ ys = cc in
      and_both (x == y) (same_text xs ys) ((==_iff x y).1 e) ((same_text_eq xs ys).1 es),
)

same_digest_text : (xs ys : List ℕ) → IsAscii xs → IsAscii ys → same_digest xs ys ≡ same_text xs ys
unfolding same_digest
same_digest_text xs ys p q = elim (Bool-cases (length xs == length ys)) [
  | inl e ↦ rw e (difference-zero 0 xs ys (omega arith) p q ((==_iff (length xs) (length ys)).0 e))
  | inr e ↦ rw e (
      not_true-false (same_text xs ys)
        (λ t. clash e ((==_iff (length xs) (length ys)).1 (same_text-length xs ys t))))
]

-- A PIN is accepted exactly where its digest is the stored one, for texts of characters below 128,
-- as hexadecimal digits are.
pub verify_pin_iff :
    (env : Digests) (pin salt expected : List ℕ)
    → IsAscii (hash_pin env pin salt)
    → IsAscii expected
    → (verify_pin env pin salt expected ≡ true) ↔ (hash_pin env pin salt ≡ expected)
unfolding verify_pin
verify_pin_iff env pin salt expected p q =
    rw (same_digest_text (hash_pin env pin salt) expected p q)
      (same_text_eq (hash_pin env pin salt) expected)
