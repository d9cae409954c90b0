-- ===== src/Redis/Examples.antt =====
-- A value that is set and read back, with Redis away.
use lotzi.Base.{ℕ, ◌≡◌, true, none, some, List, [], ◌∷◌, arith}
use lotzi.Redis.Service.{State, get, set_ex}
use lotzi.Redis.Calls.{Call, call_get, call_set_nx_ex, call_set_ex, after_all, Fits, after_all-Fits}
use lotzi.Redis.Keeping.{set_ex-get}

abbrev fresh : State
fresh = record { local_cache = []; circuit_open_until = 0 }

abbrev calls : List (ℕ × Call)
calls =
    (1000, call_set_ex 1 60 "a" none)
    ∷ (1500, call_set_nx_ex 1 60 "b" none)
    ∷ (40000, call_get 1 (some none))
    ∷ []

after_all-Fits_example : Fits (after_all true true calls fresh)
after_all-Fits_example = after_all-Fits true true calls fresh (omega arith)

set_ex-get_example :
    (get 2000 1 true none (
      after_all true true
        ((1200, call_set_ex 2 60 "b" none) ∷ (1500, call_get 1 none) ∷ [])
        (set_ex 1000 1 60 "a" true none fresh))).0
    ≡ some "a"
set_ex-get_example =
    set_ex-get 1000 2000 1 60 "a" true true none
      ((1200, call_set_ex 2 60 "b" none) ∷ (1500, call_get 1 none) ∷ []) fresh (omega arith)
      (omega arith) ((omega arith, omega arith), ((omega arith, tt), tt)) (omega arith)
