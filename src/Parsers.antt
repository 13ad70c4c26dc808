-- ===== src/Parsers.antt =====
-- What the packet parsers of app/parsers/ share: packets as lists of bytes, and Python's decoding
-- of bytes to text.
pub mod Utf8
pub mod Modbus
pub mod Dnp3
pub mod S7comm
pub mod Serialization
pub mod Ethernetip
use ot_asset_discovery.Prelude.{
  ℕ, zero, suc, ◌+◌, ◌*◌, ◌/◌, ◌%◌, Option, none, List, [], ◌∷◌, ltb, if◌then◌else◌, length, Text,
}

abbrev pub Bytes : Type 0
Bytes = List ℕ

-- `raw_bytes[i]` where the index is in range; `reading` says where it is not
abbrev pub byte_at : Bytes → ℕ → ℕ
byte_at [] i = 0
byte_at (b ∷ bs) zero = b
byte_at (b ∷ bs) (suc i) = byte_at bs i

-- Indexing that needs so many bytes: `none` is IndexError, where there are fewer.
abbrev pub reading {ℓ} : {A : Type ℓ} → ℕ → Bytes → Option A → Option A
reading needed bs read = if ltb (length bs) needed then none else read

-- a big-endian unsigned 16-bit field
abbrev pub be16 : Bytes → ℕ → ℕ
be16 bs i = byte_at bs i * 256 + byte_at bs (i + 1)

-- `f"{n:04X}"`, for n below 2 ^ 16
abbrev pub hex_digit : ℕ → ℕ
hex_digit d = if ltb d 10 then 48 + d else 55 + d

abbrev pub hex4 : ℕ → Text
hex4 n =
    hex_digit (n / 4096)
    ∷ hex_digit (n / 256 % 16)
    ∷ hex_digit (n / 16 % 16)
    ∷ hex_digit (n % 16)
    ∷ []
