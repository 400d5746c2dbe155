-- ===== src/Wire.antt =====
-- Bytes on the wire, and the readers of server/include/RTypeSrv/inline/PacketParser.inl. The same
-- two templates stand in server/include/RTypeSrv/GameServerPacketParser.hpp.
pub mod RoundTrip
pub mod Local
mod Examples
use r_type_server.Prelude.{
  ℕ, zero, suc, ◌+◌, ◌*◌, ◌/◌, ◌%◌, ◌^◌, ◌<◌, List, [], ◌∷◌, Option, none, some, Bool, leb, ltb,
  get_or, length, take, drop, All, if◌then◌else◌,
}

abbrev pub Bytes : Type 0
Bytes = List ℕ

abbrev pub IsByte : ℕ → Type 0
IsByte b = b < 256

abbrev pub IsBytes : Bytes → Type 0
IsBytes = All IsByte

-- What the parsers and handlers throw, by the message.
pub data Error : Type 0 where
  incomplete_header invalid_magic invalid_version invalid_value : Error
  incomplete_packet unregistered not_owner invalid_packet : Error

-- The end of a reader: a value and the offset after it, an exception and the offset that the
-- caller's reference has when it is thrown, or a read past the end of the buffer.
pub data Read (A : Type 0) : Type 0 where
  ok : A → ℕ → Read A
  err : Error → ℕ → Read A
  oob : Read A

-- `(const uint8_t *data, size_t &offset, size_t bufsize)`, where `bufsize` is the length.
abbrev pub Reader : Type 0 → Type 0
Reader A = Bytes → ℕ → Read A

infixl 5 ◌>>=◌ ◌>>◌
abbrev pub ◌>>=◌ : {A B : Type 0} → Reader A → (A → Reader B) → Reader B
◌>>=◌ m f d o = elim (m d o) [ ok a o' ↦ f a d o' | err e o' ↦ err e o' | oob ↦ oob ]

abbrev pub ◌>>◌ : {B : Type 0} → Reader (Unit {0}) → Reader B → Reader B
m >> k = m >>= λ _. k

abbrev pub pure : {A : Type 0} → A → Reader A
pure a d o = ok a o

abbrev pub throw : {A : Type 0} → Error → Reader A
throw e d o = err e o

-- `if (offset + n > bufsize) throw`
abbrev pub need : ℕ → Error → Reader (Unit {0})
need n e d o = if leb (o + n) (length d) then ok tt o else err e o

abbrev pub check : Bool → Error → Reader (Unit {0})
check b e d o = if b then ok tt o else err e o

-- `offset += n`
abbrev pub advance : ℕ → Reader (Unit {0})
advance n d o = ok tt (o + n)

-- The n bytes at `data + i`, if the buffer has them.
abbrev pub slice : ℕ → ℕ → Bytes → Option Bytes
slice i n d = if leb (i + n) (length d) then some (take n (drop i d)) else none

-- Reads n bytes at `data + offset + i` and leaves the offset.
abbrev pub peek : ℕ → ℕ → Reader Bytes
peek i n d o = elim (slice (o + i) n d) [ none ↦ oob | some bs ↦ ok bs o ]

-- `data[offset + i]`
abbrev pub byte_at : ℕ → Reader ℕ
byte_at i d o = if ltb (o + i) (length d) then ok (get_or d (o + i) 0) o else oob

-- `val = static_cast<T>((val << 8) | data[offset + i])`: of a byte, `|` is a sum.
abbrev pub be_loop : ℕ → ℕ → Bytes → ℕ
be_loop m val [] = val
be_loop m val (b ∷ bs) = be_loop m ((val * 256 + b) % m) bs

-- `getNextVal<T>` where `sizeof(T)` is `s`.
unfoldable pub get_next_val : ℕ → Reader ℕ
get_next_val s d o = elim (slice o s d) [
  | none ↦ err invalid_value o
  | some bs ↦ ok (be_loop (256 ^ s) 0 bs) (o + s)
]

-- `static_cast<uint8_t>(val >> (8 * i))` from i = s - 1 down to 0.
unfoldable pub be_bytes : ℕ → ℕ → Bytes
be_bytes zero v = []
be_bytes (suc i) v = (v / 256 ^ i % 256) ∷ be_bytes i v
