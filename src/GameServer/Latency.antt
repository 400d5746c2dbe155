-- ===== src/GameServer/Latency.antt =====
-- The round-trip times that `handleUDPPong` keeps.
use native.Mathlib.Nat.{le-div_iff_mul-le, div-le_of_le-mul, mul-le-mul_right, mul-add}
use r_type_server.Prelude.{
  ℕ, ◌+◌, ◌*◌, ◌/◌, ◌%◌, ◌^◌, ◌≤◌, ◌<◌, ◌≡◌, refl, Option, none, some, arith, min, max,
}
use r_type_server.GameServer.State.{LatencyMetrics}
use r_type_server.GameServer.Handlers.{add_sample, max_of}

-- The average is between the extremes, which stand from the first sample on.
abbrev pub Around : Option ℕ → ℕ → ℕ → ℕ → Type 0
Around none least average n = n ≡ 0
Around (some greatest) least average n = (0 < n) × (least ≤ average) × (average ≤ greatest)

abbrev pub Ordered : LatencyMetrics → Type 0
Ordered m = Around m.max_rtt m.min_rtt m.avg_rtt m.samples

-- The mean of n values of average a, with one more.
mean_above : (least a n rtt : ℕ) → least ≤ a → least ≤ rtt → least ≤ (a * n + rtt) / (n + 1)
mean_above least a n rtt la lr =
    (le-div_iff_mul-le {k = n + 1} {x = least} {y = a * n + rtt} (omega arith)).1
      (omega (arith, mul-le-mul_right n la, mul-add least n 1))

mean_below :
    (greatest a n rtt : ℕ) → a ≤ greatest → rtt ≤ greatest → (a * n + rtt) / (n + 1) ≤ greatest
mean_below greatest a n rtt ag rg =
    div-le_of_le-mul (n + 1) (omega (arith, mul-le-mul_right n ag, mul-add greatest n 1))

first_mean : (a n rtt : ℕ) → n ≡ 0 → (a * n + rtt) / (n + 1) ≡ rtt
first_mean a n rtt e = rw (e) (omega arith)

-- The new extremes are around the new average.
between :
    (least : ℕ) (greatest : Option ℕ) (a n rtt : ℕ)
    → Around greatest least a n
    → (min least rtt ≤ (a * n + rtt) / (n + 1)) × ((a * n + rtt) / (n + 1) ≤ max_of greatest rtt)
between least none a n rtt o =
    (omega (arith, first_mean a n rtt o), omega (arith, first_mean a n rtt o))
between least (some g) a n rtt o = (
  mean_above (min least rtt) a n rtt (omega (arith, o.1)) (omega arith),
  mean_below (max g rtt) a n rtt (omega (arith, o.2)) (omega arith),
)

-- A sample counts, and the least, the average and the greatest stay in this order, as long as the
-- number of samples does not wrap around.
pub add_sample-Ordered :
    (rtt : ℕ) (m : LatencyMetrics)
    → m.samples + 1 < 2 ^ 32
    → Ordered m
    → Ordered (add_sample rtt m) × ((add_sample rtt m).samples ≡ m.samples + 1)
unfolding add_sample
add_sample-Ordered rtt m lt o = rw (no_wrap) (
  (
    omega arith,
    (between m.min_rtt m.max_rtt m.avg_rtt m.samples rtt o).0,
    (between m.min_rtt m.max_rtt m.avg_rtt m.samples rtt o).1,
  ),
  refl,
)
  where
    no_wrap : (m.samples + 1) % 2 ^ 32 ≡ m.samples + 1
    no_wrap = omega arith
