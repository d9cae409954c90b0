-- ===== src/Uploads/Semaphore.antt =====
-- processing-semaphore.service.ts. `tryAcquire` hands out a function that releases; a function that
-- was handed out is known by its place in the list of their `released` flags, the oldest first.
use lotzi.Base.{
  ℕ, zero, suc, ◌+◌, ◌-◌, ◌≤◌, ◌≡◌, refl, sym, inl, inr, Bool, true, false, List, [], ◌∷◌, ◌++◌,
  ltb, leb, if◌then◌else◌, arith, Bool-cases,
}
use lotzi.Base.Sorting.{total_of}

pub record ProcessingSemaphore : Type 0 where
  pub active : ℕ
  pub limit : ℕ
  pub released : List Bool

-- The result tells whether there is a release function, which is then the last of the list.
unfoldable pub try_acquire : ProcessingSemaphore → Bool × ProcessingSemaphore
try_acquire s =
    if leb s.limit s.active
    then (false, s)
    else (true, record s { active = s.active + 1; released = s.released ++ (false ∷ []) })

abbrev flag_at : ℕ → List Bool → Bool
flag_at i [] = true
flag_at zero (b ∷ bs) = b
flag_at (suc i) (b ∷ bs) = flag_at i bs

abbrev raise : ℕ → List Bool → List Bool
raise i [] = []
raise zero (b ∷ bs) = true ∷ bs
raise (suc i) (b ∷ bs) = b ∷ raise i bs

-- The release function at a place is called; `Math.max(0, active - 1)` is what `-` does here.
unfoldable pub release : ℕ → ProcessingSemaphore → ProcessingSemaphore
release i s =
    if flag_at i s.released
    then s
    else record s { active = s.active - 1; released = raise i s.released }

pub data Call : Type 0 where
  acquire : Call
  release_at : ℕ → Call

unfoldable pub after : Call → ProcessingSemaphore → ProcessingSemaphore
after acquire s = (try_acquire s).1
after (release_at i) s = release i s

unfoldable pub after_all : List Call → ProcessingSemaphore → ProcessingSemaphore
unfolding after
after_all [] s = s
after_all (c ∷ calls) s = after_all calls (after c s)

abbrev pub new_semaphore : ℕ → ProcessingSemaphore
new_semaphore limit = record { active = 0; limit = limit; released = [] }

-- The release functions that have not been called.
abbrev pub outstanding : List Bool → ℕ
outstanding = total_of (λ b. if b then 0 else 1)

-- The counter is the number of the holders, and within the limit.
abbrev pub IsCounted : ℕ → ProcessingSemaphore → Type 0
IsCounted limit s = (s.limit ≡ limit) × (s.active ≡ outstanding s.released) × (s.active ≤ limit)

outstanding-append : (bs : List Bool) → outstanding (bs ++ (false ∷ [])) ≡ outstanding bs + 1
outstanding-append [] = refl
outstanding-append (b ∷ bs) = omega (arith, outstanding-append bs)

outstanding-raise :
    (i : ℕ) (bs : List Bool) → flag_at i bs ≡ false → outstanding bs ≡ outstanding (raise i bs) + 1
outstanding-raise i [] h = cc
outstanding-raise zero (b ∷ bs) h = rw h (omega arith)
outstanding-raise (suc i) (b ∷ bs) h = omega (arith, outstanding-raise i bs h)

try_acquire-IsCounted :
    (limit : ℕ) (s : ProcessingSemaphore)
    → IsCounted limit s
    → IsCounted limit (try_acquire s).1 × ((try_acquire s).0 ≡ ltb (outstanding s.released) limit)
unfolding try_acquire
try_acquire-IsCounted limit s (l, a, b) = elim (Bool-cases (leb s.limit s.active)) [
  | inl e ↦
      let full : ltb (outstanding s.released) limit ≡ false = ground arith in
      rw e ((l, a, b), sym full)
  | inr e ↦
      let room : ltb (outstanding s.released) limit ≡ true = ground arith in
      rw e ((l, omega (arith, outstanding-append s.released), ground arith), sym room)
]

release-IsCounted :
    (limit i : ℕ) (s : ProcessingSemaphore) → IsCounted limit s → IsCounted limit (release i s)
unfolding release
release-IsCounted limit i s (l, a, b) = elim (Bool-cases (flag_at i s.released)) [
  | inl e ↦ rw e (l, a, b)
  | inr e ↦ rw e (l, omega (arith, outstanding-raise i s.released e), omega arith)
]

after-IsCounted :
    (limit : ℕ) (c : Call) (s : ProcessingSemaphore)
    → IsCounted limit s
    → IsCounted limit (after c s)
unfolding after
after-IsCounted limit acquire s h = (try_acquire-IsCounted limit s h).0
after-IsCounted limit (release_at i) s h = release-IsCounted limit i s h

IsCounted-all :
    (limit : ℕ) (calls : List Call) (s : ProcessingSemaphore)
    → IsCounted limit s
    → IsCounted limit (after_all calls s)
unfolding after_all
IsCounted-all limit [] s h = h
IsCounted-all limit (c ∷ calls) s h =
    IsCounted-all limit calls (after c s) (after-IsCounted limit c s h)

-- After any calls on a new semaphore, also where a release function is called twice, the counter is
-- the number of the holders, and it is within the limit. The next `tryAcquire` succeeds just when
-- there are fewer holders than the limit.
pub after_all-IsCounted :
    (limit : ℕ) (calls : List Call)
    → IsCounted limit (after_all calls (new_semaphore limit))
      × ((try_acquire (after_all calls (new_semaphore limit))).0
          ≡ ltb (outstanding (after_all calls (new_semaphore limit)).released) limit)
after_all-IsCounted limit calls =
    let counted = IsCounted-all limit calls (new_semaphore limit) (refl, refl, omega arith) in
    (counted, (try_acquire-IsCounted limit (after_all calls (new_semaphore limit)) counted).1)
