-- ===== src/Utils/Examples.antt =====
-- Addresses with runs of zeros.
use r_type_server.Prelude.{◌≡◌, refl, [], ◌∷◌, none, arith}
use r_type_server.Utils.IpToStr.{best_run, print_v6}
use r_type_server.Utils.Runs.{IsBest, run_at, best_run-longest}
use r_type_server.Utils.Ipv6.{print_v6-ambiguous}

-- 2001:db8:0:0:1:0:0:1
best_run-longest_example :
    IsBest
      (run_at (0x2001 ∷ 0xdb8 ∷ 0 ∷ 0 ∷ 1 ∷ 0 ∷ 0 ∷ 1 ∷ []))
      8
      (best_run 8 0 (0x2001 ∷ 0xdb8 ∷ 0 ∷ 0 ∷ 1 ∷ 0 ∷ 0 ∷ 1 ∷ []) none 0).0
      (best_run 8 0 (0x2001 ∷ 0xdb8 ∷ 0 ∷ 0 ∷ 1 ∷ 0 ∷ 0 ∷ 1 ∷ []) none 0).1
best_run-longest_example = best_run-longest (0x2001 ∷ 0xdb8 ∷ 0 ∷ 0 ∷ 1 ∷ 0 ∷ 0 ∷ 1 ∷ []) refl

print_v6-ambiguous_example :
    print_v6 (1 ∷ 0 ∷ 0 ∷ 2 ∷ 3 ∷ 4 ∷ 5 ∷ 6 ∷ []) ≡ print_v6 (1 ∷ 2 ∷ 0 ∷ 0 ∷ 3 ∷ 4 ∷ 5 ∷ 6 ∷ [])
print_v6-ambiguous_example =
    print_v6-ambiguous 1 2 3 4 5 6
      (omega arith, (omega arith, (omega arith, (omega arith, (omega arith, (omega arith, tt))))))
