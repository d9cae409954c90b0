-- ===== src/RateLimit/Examples.antt =====
-- Calls on one key.
use lotzi.Base.{ℕ, ◌+◌, ◌-◌, ◌*◌, ◌≤◌, List, [], ◌∷◌, none, arith}
use lotzi.RateLimit.Gcra.{Ordered, last_time, admitted, gcra_rate}
use lotzi.RateLimit.Window.{passed, passed_window}

-- Five calls in a tenth of a second, and one a second later.
abbrev times : List ℕ
times = 1000 ∷ 1020 ∷ 1040 ∷ 1060 ∷ 1080 ∷ 2080 ∷ []

ordered : Ordered 1000 times
unfolding Ordered
ordered =
    (omega arith, (omega arith, (omega arith, (omega arith, (omega arith, (omega arith, tt))))))

gcra_rate_example : admitted 500 1000 1500 none times * 500 ≤ (last_time 1000 times - 1000) + 1000
gcra_rate_example = gcra_rate 500 1000 1500 1000 times (omega arith) ordered

passed_window_example : passed 3 1000 none (1000 ∷ 1010 ∷ 1020 ∷ 1030 ∷ 1040 ∷ []) ≤ 3
passed_window_example =
    passed_window 3 1000 1000 (1010 ∷ 1020 ∷ 1030 ∷ 1040 ∷ []) (omega arith)
      (omega arith, (omega arith, (omega arith, (omega arith, tt))))
