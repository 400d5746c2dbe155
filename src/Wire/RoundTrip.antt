-- ===== src/Wire/RoundTrip.antt =====
-- What is written big-endian is read back.
use native.Mathlib.Nat.{pow-suc, div-div-eq-div-mul, div-le_self, mod-eq_of_lt, div-eq_of_lt}
use r_type_server.Prelude.{
  ℕ, zero, suc, ◌+◌, ◌*◌, ◌/◌, ◌%◌, ◌^◌, ◌<◌, ◌≡◌, refl, sym, ap, some, ◌++◌, arith, length,
  length-append, take-length_append, drop-append,
}
use r_type_server.Wire.{Bytes, IsBytes, be_loop, slice, be_bytes, get_next_val, ok}

pub length-be_bytes : (s v : ℕ) → length (be_bytes s v) ≡ s
unfolding be_bytes
length-be_bytes zero v = refl
length-be_bytes (suc s) v = omega (arith, length-be_bytes s v)

pub be_bytes-IsBytes : (s v : ℕ) → IsBytes (be_bytes s v)
unfolding be_bytes
be_bytes-IsBytes zero v = tt
be_bytes-IsBytes (suc s) v = (omega arith, be_bytes-IsBytes s v)

-- The loop has read the digits of v above the last s.
be_loop-be_bytes : (m s v acc : ℕ) → v < m → acc ≡ v / 256 ^ s → be_loop m acc (be_bytes s v) ≡ v
unfolding be_bytes
be_loop-be_bytes m zero v acc h e = omega arith
be_loop-be_bytes m (suc s) v acc h e =
    let digits : acc * 256 + v / 256 ^ s % 256 ≡ v / 256 ^ s =
      omega (arith, e, ap (λ (t : ℕ). v / t) (pow-suc 256 s), div-div-eq-div-mul v (256 ^ s) 256) in
    be_loop-be_bytes m s v _ h (rw digits (mod-eq_of_lt (omega (arith, div-le_self v (256 ^ s)))))

pub be_loop-read : (s v : ℕ) → v < 256 ^ s → be_loop (256 ^ s) 0 (be_bytes s v) ≡ v
be_loop-read s v h = be_loop-be_bytes (256 ^ s) s v 0 h (sym (div-eq_of_lt {n = v} {m = 256 ^ s} h))

-- Reading past a prefix.
pub slice-append : (pre d : Bytes) (i n : ℕ) → slice (length pre + i) n (pre ++ d) ≡ slice i n d
slice-append pre d i n = rw (length-append pre d, drop-append pre d i) (ground arith)

pub slice-prefix : (bs post : Bytes) (n : ℕ) → length bs ≡ n → slice 0 n (bs ++ post) ≡ some bs
slice-prefix bs post n e =
    rw (← e, length-append bs post, take-length_append bs post) (ground arith)

-- `pushValInBuffer` and then `getNextVal`, anywhere in a buffer.
pub get_next_val-be_bytes :
    (pre : Bytes) (s v : ℕ) (post : Bytes)
    → v < 256 ^ s
    → get_next_val s (pre ++ (be_bytes s v ++ post)) (length pre) ≡ ok v (length pre + s)
unfolding get_next_val
get_next_val-be_bytes pre s v post h = ground (
  arith,
  slice-append pre (be_bytes s v ++ post) 0 s,
  slice-prefix (be_bytes s v) post s (length-be_bytes s v),
  be_loop-read s v h,
)
