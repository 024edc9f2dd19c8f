-- ===== src/Prelude/Bytes.antt =====
-- Bytes, big-endian fields, and texts as lists of bytes.
use Prim.Native.Nat.{ℕ, ◌+◌, ◌*◌, ◌/◌, ◌%◌, ◌^◌, ◌<◌}
use Prim.Native.Char.{code}
use Prim.Native.String.{String}
use mathlib.Core.Path.{◌≡◌}
use mathlib.Core.List.{List, [], ◌∷◌}
use native.Mathlib.Omega.{arith}

abbrev pub IsByte : ℕ → Type 0
IsByte b = b < 256

-- The bytes of a text that is ASCII.
abbrev pub codes : String → List ℕ
codes String.[] = []
codes (String.◌∷◌ c s) = code c ∷ codes s

-- `(a << 8) | b` and its longer kinds: the operands of `|` share no bit, so it adds them.
abbrev pub be16 : ℕ → ℕ → ℕ
be16 a b = a * 2 ^ 8 + b

abbrev pub be24 : ℕ → ℕ → ℕ → ℕ
be24 a b c = a * 2 ^ 16 + b * 2 ^ 8 + c

abbrev pub be32 : ℕ → ℕ → ℕ → ℕ → ℕ
be32 a b c d = a * 2 ^ 24 + b * 2 ^ 16 + c * 2 ^ 8 + d

-- `(x >> k) & 0xFF`.
abbrev pub byte_at : ℕ → ℕ → ℕ
byte_at k x = x / 2 ^ k % 256

-- `(x >> 24) & 0x7F`: the top byte of a 31-bit field, its reserved bit cleared.
abbrev pub top7 : ℕ → ℕ
top7 x = x / 2 ^ 24 % 128

pub be16-byte_at : (x : ℕ) → x < 2 ^ 16 → be16 (byte_at 8 x) (x % 256) ≡ x
be16-byte_at x h = omega arith

pub be24-byte_at : (x : ℕ) → x < 2 ^ 24 → be24 (byte_at 16 x) (byte_at 8 x) (x % 256) ≡ x
be24-byte_at x h = omega arith

pub be32-byte_at :
    (x : ℕ) → x < 2 ^ 32 → be32 (byte_at 24 x) (byte_at 16 x) (byte_at 8 x) (x % 256) ≡ x
be32-byte_at x h = omega arith

pub be32-top7 : (x : ℕ) → be32 (top7 x) (byte_at 16 x) (byte_at 8 x) (x % 256) ≡ x % 2 ^ 31
be32-top7 x = omega arith
