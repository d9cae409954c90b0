-- ===== src/RateLimit/Gcra.antt =====
-- The rate that the script of Redis lets through.
use lotzi.Base.{
  ℕ, ◌+◌, ◌-◌, ◌*◌, ◌≤◌, ◌≡◌, refl, ap, ◌⊎◌, inl, inr, true, false, List, [], ◌∷◌, Option, none,
  some, leb, max, if◌then◌else◌, arith, Bool-cases,
}
use lotzi.RateLimit.Limiter.{Stored, stored_tat, gcra}

-- Times in order, from a start on.
unfoldable pub Ordered : ℕ → List ℕ → Type 0
Ordered start [] = Unit
Ordered start (t ∷ ts) = (start ≤ t) × Ordered t ts

pub last_time : ℕ → List ℕ → ℕ
last_time start [] = start
last_time start (t ∷ ts) = last_time t ts

-- How many of the calls at these times, one behind the other, the script lets through.
unfoldable pub admitted : ℕ → ℕ → ℕ → Option Stored → List ℕ → ℕ
admitted interval burst ttl entry [] = 0
admitted interval burst ttl entry (t ∷ ts) =
    let ((allowed, retry), next) = gcra t interval burst ttl entry in
    let rest = admitted interval burst ttl next ts in if allowed then rest + 1 else rest

abbrev tat_of : Option Stored → ℕ
tat_of none = 0
tat_of (some e) = e.tat

-- What expires has been used up by then.
abbrev Expires : Option Stored → Type 0
Expires none = Unit
Expires (some e) = e.tat ≤ e.expires_at

stored_tat_lem :
    (now : ℕ) (entry : Option Stored)
    → Expires entry
    → max (stored_tat now entry) now ≡ max (tat_of entry) now
stored_tat_lem now none h = refl
stored_tat_lem now (some e) h = ground arith

Ordered-last : (start : ℕ) (ts : List ℕ) → Ordered start ts → start ≤ last_time start ts
unfolding Ordered last_time
Ordered-last start [] h = omega arith
Ordered-last start (t ∷ ts) h = ground (arith, Ordered-last t ts h.1)

one_more :
    (n i tat start t last burst : ℕ)
    → start ≤ t
    → t ≤ last
    → max tat t + i ≤ t + burst
    → (n ≡ 0) ⊎ (n * i + max (max tat t + i) t ≤ last + burst)
    → (n + 1) * i + max tat start ≤ last + burst
one_more n i tat start t last burst a b c (inl e) = rw e (ground arith)
one_more n i tat start t last burst a b c (inr h) =
    let split : (n + 1) * i ≡ n * i + i = omega arith in rw split (ground arith)

one_less :
    (n i tat start t bound : ℕ)
    → start ≤ t
    → (n ≡ 0) ⊎ (n * i + max tat t ≤ bound)
    → (n ≡ 0) ⊎ (n * i + max tat start ≤ bound)
one_less n i tat start t bound a (inl e) = inl e
one_less n i tat start t bound a (inr h) = inr (ground arith)

module _ (interval burst ttl : ℕ) (enough : burst ≤ ttl) where
  -- One call.
  gcra_cases :
      (t : ℕ) (entry : Option Stored)
      → Expires entry
      → ((gcra t interval burst ttl entry).0.0 ≡ true)
          × ((gcra t interval burst ttl entry).1
              ≡ some (record { tat = max (tat_of entry) t + interval; expires_at = t + ttl }))
          × (max (tat_of entry) t + interval ≤ t + burst)
        ⊎ ((gcra t interval burst ttl entry).0.0 ≡ false)
          × ((gcra t interval burst ttl entry).1 ≡ entry)
  unfolding gcra
  gcra_cases t entry h =
      let w = stored_tat_lem t entry h in
      elim (Bool-cases (leb (max (stored_tat t entry) t + interval - burst) t)) [
        | inl e ↦ inl (
          rw e refl,
          rw e (ap (λ x. some (record { tat = x + interval; expires_at = t + ttl })) w),
          ground arith,
        )
        | inr e ↦ inr (rw e refl, rw e refl)
      ]

  spent :
      (entry : Option Stored) (start : ℕ) (ts : List ℕ)
      → Expires entry
      → Ordered start ts
      → let n = admitted interval burst ttl entry ts in
        (n ≡ 0) ⊎ (n * interval + max (tat_of entry) start ≤ last_time start ts + burst)
  unfolding admitted Ordered last_time
  spent entry start [] h o = inl refl
  spent entry start (t ∷ ts) h o = elim (gcra_cases t entry h) [
    | inl (through, next, within) ↦
        rw (through, next)
          (inr (
            one_more _ interval (tat_of entry) start t (last_time t ts) burst o.0
              (Ordered-last t ts o.1) within
              (spent (some (record { tat = max (tat_of entry) t + interval; expires_at = t + ttl }))
                t ts (ground arith) o.1)))
    | inr (refused, same) ↦
        rw (refused, same)
          (one_less _ interval (tat_of entry) start t (last_time t ts + burst) o.0
            (spent entry t ts h o.1))
  ]

-- Where a key lives at least as long as the burst, calls on a new key, in order of time from a start
-- on, get through at most so often that the intervals of those let through fit into the time that has
-- passed and one burst.
pub gcra_rate :
    (interval burst ttl start : ℕ) (ts : List ℕ)
    → burst ≤ ttl
    → Ordered start ts
    → admitted interval burst ttl none ts * interval ≤ (last_time start ts - start) + burst
gcra_rate interval burst ttl start ts enough o =
    elim (spent interval burst ttl enough none start ts tt o) [
      | inl e ↦ rw e (ground arith)
      | inr h ↦ ground (arith, Ordered-last start ts o)
    ]
