-- ===== src/Core/Values.antt =====
-- The fields of the configuration and the values of a line: the start of core/src/GetConfig.cpp, and
-- core/include/GetConfig.hpp.
use r_type_server.Prelude.{
  ℕ, zero, suc, ◌/◌, ◌%◌, ◌^◌, Bool, false, ◌||◌, List, [], ◌∷◌, ◌==◌, leb, ltb, if◌then◌else◌,
}
use r_type_server.Wire.{Bytes}
use r_type_server.Gateway.State.{Address}
use r_type_server.Text.{
  Text, Scan, matched, failed, overflow, ◌>>=◌, ◌>>◌, pure, expect, scan_int, scan_size,
}

pub record Config : Type 0 where
  pub tcp_only : Bool
  pub udp_only : Bool
  pub tcp_endpoint : Address
  pub udp_endpoint : Address
  pub external_udp_endpoint : Address
  pub n_cores : ℕ

abbrev pub default_tcp_port : ℕ
default_tcp_port = 3000

abbrev pub default_udp_port : ℕ
default_udp_port = 4000

-- `Config config;`: what an `Endpoint` is at first is said by the network library.
abbrev pub initial : Address → Config
initial blank = record {
  tcp_only = false;
  udp_only = false;
  tcp_endpoint = blank;
  udp_endpoint = blank;
  external_udp_endpoint = blank;
  n_cores = 4;
}

-- `std::invalid_argument`, and a conversion that is undefined.
pub data Result (A : Type 0) : Type 0 where
  ok : A → Result A
  invalid : Result A
  undefined : Result A

-- The bytes of an `int`, which is read as its 32 bits.
abbrev pub fst_part : ℕ → ℕ
fst_part n = n / 256 % 256

abbrev pub last_part : ℕ → ℕ
last_part n = n % 256

unfoldable pub build_ip_v4 : ℕ → ℕ → ℕ → ℕ → Bytes
build_ip_v4 a b c d =
    0
    ∷ 0
    ∷ 0
    ∷ 0
    ∷ 0
    ∷ 0
    ∷ 0
    ∷ 0
    ∷ 0
    ∷ 0
    ∷ 0xff
    ∷ 0xff
    ∷ last_part a
    ∷ last_part b
    ∷ last_part c
    ∷ last_part d
    ∷ []

-- The two bytes of each of the eight numbers.
unfoldable pub build_ip_v6 : List ℕ → Bytes
build_ip_v6 [] = []
build_ip_v6 (n ∷ ns) = fst_part n ∷ last_part n ∷ build_ip_v6 ns

-- "%d.%d.%d.%d"
unfoldable pub scan_ip_v4 : Text → Scan Bytes
unfolding build_ip_v4
scan_ip_v4 = do
  a ← scan_int
  expect b'.'
  b ← scan_int
  expect b'.'
  c ← scan_int
  expect b'.'
  d ← scan_int
  pure (build_ip_v4 a b c d)

-- n more of ":%d".
unfoldable pub scan_more : ℕ → Text → Scan (List ℕ)
scan_more zero = pure []
scan_more (suc n) = do expect b':'; a ← scan_int; ns ← scan_more n; pure (a ∷ ns)

-- "%d:%d:%d:%d:%d:%d:%d:%d"
unfoldable pub scan_ip_v6 : Text → Scan Bytes
unfolding scan_more build_ip_v6
scan_ip_v6 = do a ← scan_int; ns ← scan_more 7; pure (build_ip_v6 (a ∷ ns))

unfoldable pub get_ip : Text → Result Bytes
unfolding scan_ip_v4 scan_ip_v6
get_ip val = elim (scan_ip_v4 val) [
  | matched ip rest ↦ ok ip
  | overflow ↦ undefined
  | failed ↦ elim (scan_ip_v6 val) [
    | matched ip rest ↦ ok ip
    | overflow ↦ undefined
    | failed ↦ invalid
  ]
]

-- A negative number has its high bit set, so one test is for both bounds.
unfoldable pub get_port : Text → Result ℕ
get_port val = elim (scan_int val) [
  | matched p rest ↦ if leb (2 ^ 31) p || ltb 65535 p then invalid else ok p
  | overflow ↦ undefined
  | failed ↦ invalid
]

unfoldable pub get_n_cores : Text → Result ℕ
get_n_cores val = elim (scan_size val) [
  | matched n rest ↦ if n == 0 then invalid else ok n
  | overflow ↦ undefined
  | failed ↦ invalid
]
