-- ===== src/Immutable/Hash.antt =====
-- immutable/set.go: the hash functions, over the digest of crypto/sha256. The code's `fastHash` is
-- the constant false, so HashInt and HashString are their "crypto" variants.
use rulestone.Prelude.{ℕ, zero, suc, ◌+◌, ◌-◌, ◌*◌, ◌/◌, ◌%◌, ◌^◌, List, [], ◌∷◌, ◌++◌, take}
use rulestone.Prelude.Int.{ℤ, pos, negsuc}

-- What the module takes from outside: the 32 bytes of SHA-256 of a list of bytes.
pub record Digest : Type 0 where
  pub sum256 : List ℕ → List ℕ

-- binary.LittleEndian: a number in `n` bytes, and back.
unfoldable pub le_bytes : ℕ → ℕ → List ℕ
le_bytes zero v = []
le_bytes (suc n) v = v % 256 ∷ le_bytes n (v / 256)

unfoldable pub le_number : List ℕ → ℕ
le_number [] = 0
le_number (b ∷ bs) = b + 256 * le_number bs

module _ (d : Digest) where
  -- hashIntCrypto and hashStringCrypto, from the bytes that they write to the buffer.
  unfoldable pub hash_bytes : List ℕ → ℕ
  unfolding le_number
  hash_bytes bytes = le_number (take 8 (d.sum256 bytes))

  -- HashInt of a uint64, of a slice of them, and of a slice of int32 bit patterns.
  unfoldable pub hash_uint64 : ℕ → ℕ
  unfolding hash_bytes le_bytes
  hash_uint64 v = hash_bytes (le_bytes 8 v)

  words_bytes : ℕ → List ℕ → List ℕ
  words_bytes width [] = []
  words_bytes width (v ∷ vs) = le_bytes width v ++ words_bytes width vs

  unfoldable pub hash_uint64s : List ℕ → ℕ
  unfolding hash_bytes words_bytes le_bytes
  hash_uint64s vs = hash_bytes (words_bytes 8 vs)

  unfoldable pub hash_int32s : List ℕ → ℕ
  unfolding hash_bytes words_bytes le_bytes
  hash_int32s vs = hash_bytes (words_bytes 4 vs)

  unfoldable pub rehash : ℕ → ℕ
  unfolding hash_uint64
  rehash v = hash_uint64 v

-- uint64(v) of a signed number, and the int32 bit pattern of one.
abbrev pub uint64 : ℤ → ℕ
uint64 (pos n) = n % 2 ^ 64
uint64 (negsuc n) = 2 ^ 64 - 1 - n % 2 ^ 64

abbrev pub int32_pattern : ℤ → ℕ
int32_pattern (pos n) = n % 2 ^ 32
int32_pattern (negsuc n) = 2 ^ 32 - 1 - n % 2 ^ 32
