-- ===== src/Gateway/Header.antt =====
-- What the gateway accepts as a header, and what it throws otherwise.
use r_type_server.Prelude.{
  ℕ, ◌+◌, ◌<◌, ◌≡◌, ◌∷◌, ◌++◌, ◌&&◌, not, ◌==◌, arith, length, if◌then◌else◌,
}
use r_type_server.Wire.{
  Bytes, Read, IsByte, ok, err, incomplete_header, invalid_magic, invalid_version,
}
use r_type_server.Gateway.Packets.{get_header, build_header}
use r_type_server.Gateway.Local.{get_header-IsLocal}

-- What a header of the bytes m n v f c amounts to at the offset o.
abbrev pub verdict : ℕ → ℕ → ℕ → ℕ → ℕ → Read ℕ
verdict o m n v c =
    if not (m == 0x42 && n == 0x57)
    then err invalid_magic (o + 2)
    else if not (v == 1)
    then err invalid_version (o + 3)
    else ok c (o + 4)

start_of_buffer :
    (m n v f c : ℕ) (rest : Bytes)
    → IsByte m
    → IsByte n
    → IsByte v
    → get_header (m ∷ n ∷ v ∷ f ∷ c ∷ rest) 0 ≡ verdict 0 m n v c
unfolding get_header
start_of_buffer m n v f c rest hm hn hv = ground arith

-- Of five bytes or more, wherever they stand in the buffer: a wrong magic number is thrown with the
-- offset 2 further on, a wrong version with the offset 3 further on, and otherwise the fifth byte is the
-- command, with the offset at it. The flags are not looked at.
pub get_header-verdict :
    (pre : Bytes) (m n v f c : ℕ) (rest : Bytes)
    → IsByte m
    → IsByte n
    → IsByte v
    → get_header (pre ++ (m ∷ n ∷ v ∷ f ∷ c ∷ rest)) (length pre) ≡ verdict (length pre) m n v c
get_header-verdict pre m n v f c rest hm hn hv =
    ground (
      arith,
      get_header-IsLocal.at pre (m ∷ n ∷ v ∷ f ∷ c ∷ rest) 0,
      start_of_buffer m n v f c rest,
    )

-- Of fewer than five bytes the header is incomplete, and the offset stays.
pub get_header-incomplete :
    (d : Bytes) (o : ℕ) → length d < o + 5 → get_header d o ≡ err incomplete_header o
unfolding get_header
get_header-incomplete d o h = ground arith

-- Every packet that the gateway builds has a header that it accepts, and the command is read back.
pub get_header-build_header :
    (pre : Bytes) (cmd flags : ℕ) (rest : Bytes)
    → get_header (pre ++ (build_header cmd flags ++ rest)) (length pre) ≡ ok cmd (length pre + 4)
unfolding build_header
get_header-build_header pre cmd flags rest =
    get_header-verdict pre 0x42 0x57 0x01 flags cmd rest (omega arith) (omega arith) (omega arith)
