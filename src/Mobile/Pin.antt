-- ===== src/Mobile/Pin.antt =====
-- utils/pinHash.ts: the salted and iterated digest of a PIN, and its comparison. A text is the list
-- of its code units; the digest, the encoder and the printer of bytes are given.
pub mod Compare
use veillend.Base.{
  ℕ, zero, suc, ◌+◌, ◌*◌, ◌-◌, ◌&&◌, ◌==◌, Bool, true, false, Option, none, some, List, [], ◌∷◌,
  ◌++◌, if◌then◌else◌, leb, length,
}
use Prim.Native.Nat.{bit_or, bit_xor}

pub record Digests : Type 0 where
  pub digest_hex : List ℕ → List ℕ  -- SHA-256 of the bytes, as hexadecimal digits
  pub encode : List ℕ → List ℕ
  pub to_hex : List ℕ → List ℕ

abbrev kdf_iterations : ℕ
kdf_iterations = 200000

abbrev in_range : ℕ → ℕ → ℕ → Bool
in_range lo hi c = leb lo c && leb c hi

hex_digit : ℕ → Option ℕ
hex_digit c =
    if in_range b'0' b'9' c
    then some (c - b'0')
    else if in_range b'a' b'f' c
    then some (c - b'a' + 10)
    else if in_range b'A' b'F' c
    then some (c - b'A' + 10)
    else none

-- `parseInt(ab, 16)`, where NaN becomes the byte 0.
byte_of : Option ℕ → Option ℕ → ℕ
byte_of none y = 0
byte_of (some x) none = x
byte_of (some x) (some y) = 16 * x + y

unfoldable pub hex_to_bytes : List ℕ → List ℕ
unfolding hex_digit byte_of
hex_to_bytes [] = []
hex_to_bytes (a ∷ []) = []
hex_to_bytes (a ∷ b ∷ cs) = byte_of (hex_digit a) (hex_digit b) ∷ hex_to_bytes cs

module _ (env : Digests) where
  sha256_bytes : List ℕ → List ℕ
  unfolding hex_to_bytes
  sha256_bytes input = hex_to_bytes (env.digest_hex input)

  iterated : ℕ → List ℕ → List ℕ
  iterated zero acc = acc
  iterated (suc n) acc = iterated n (sha256_bytes acc)

  unfoldable pub hash_pin : (pin salt : List ℕ) → List ℕ
  unfolding iterated sha256_bytes
  hash_pin pin salt = env.to_hex (iterated kdf_iterations (hex_to_bytes salt ++ env.encode pin))

-- The loop over the code units, which does not stop at a difference.
unfoldable pub difference : ℕ → List ℕ → List ℕ → ℕ
difference diff [] ys = diff
difference diff (x ∷ xs) [] = diff
difference diff (x ∷ xs) (y ∷ ys) = difference (bit_or diff (bit_xor x y)) xs ys

unfoldable pub same_digest : (actual expected : List ℕ) → Bool
unfolding difference
same_digest actual expected =
    if length actual == length expected then difference 0 actual expected == 0 else false

unfoldable pub verify_pin : Digests → (pin salt expected : List ℕ) → Bool
unfolding same_digest
verify_pin env pin salt expected = same_digest (hash_pin env pin salt) expected
