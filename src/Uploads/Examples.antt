-- ===== src/Uploads/Examples.antt =====
-- Two holders, of which one releases twice.
use lotzi.Base.{List, [], ◌∷◌, ◌≡◌, ltb}
use lotzi.Uploads.Semaphore.{
  Call, acquire, release_at, after_all, new_semaphore, try_acquire, outstanding, IsCounted,
  after_all-IsCounted,
}

abbrev calls : List Call
calls = acquire ∷ acquire ∷ acquire ∷ release_at 0 ∷ release_at 0 ∷ []

after_all-IsCounted_example :
    IsCounted 2 (after_all calls (new_semaphore 2))
    × ((try_acquire (after_all calls (new_semaphore 2))).0
        ≡ ltb (outstanding (after_all calls (new_semaphore 2)).released) 2)
after_all-IsCounted_example = after_all-IsCounted 2 calls
