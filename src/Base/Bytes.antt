-- ===== src/Base/Bytes.antt =====
-- Bytes and the little-endian words of `struct`.
use Prim.Native.Nat.{ℕ, ◌+◌, ◌*◌, ◌/◌, ◌%◌, ◌^◌, ◌<◌}
use mathlib.Core.Path.{◌≡◌, refl}
use mathlib.Core.List.{List, [], ◌∷◌, ◌++◌}
use native.Mathlib.Omega.{arith}
use mcu_updater.Base.Lists.{length, drop, drop-append, drop-exact}

abbrev pub Bytes : Type 0
Bytes = List ℕ

abbrev pub u32_mod : ℕ
u32_mod = 2 ^ 32

-- The word at the head of the bytes; 0 where fewer than four are left.
unfoldable pub le32 : Bytes → ℕ
le32 (a ∷ b ∷ c ∷ d ∷ _) = a + 256 * b + 65536 * c + 16777216 * d
le32 _ = 0

-- struct.unpack_from("<I", bytes, offset)
unfoldable pub word : Bytes → ℕ → ℕ
unfolding le32
word bs offset = le32 (drop offset bs)

-- struct.pack("<I", n) for n below 2 ^ 32
unfoldable pub pack32 : ℕ → Bytes
pack32 n = n % 256 ∷ n / 256 % 256 ∷ n / 65536 % 256 ∷ n / 16777216 % 256 ∷ []

pub le32-pack32 : (n : ℕ) (rest : Bytes) → n < u32_mod → le32 (pack32 n ++ rest) ≡ n
unfolding le32 pack32
le32-pack32 n rest h = omega arith

pub word-append : (pre bs : Bytes) (j : ℕ) → word (pre ++ bs) (length pre + j) ≡ word bs j
unfolding word
word-append pre bs j = rw (drop-append pre bs j)

pub word-append-zero : (pre bs : Bytes) → word (pre ++ bs) (length pre) ≡ word bs 0
unfolding word
word-append-zero pre bs = rw (drop-exact pre bs (length pre) refl)
