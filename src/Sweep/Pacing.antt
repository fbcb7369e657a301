-- ===== src/Sweep/Pacing.antt =====
-- internal/sweep/account_sweeper.go: initialDelay, jitteredInterval, and the waits of runTargetLoop.
use Prim.Native.Nat.{◌*◌, ◌^◌, ◌<◌, ◌/◌, ◌+◌, suc, zero}
use mathlib.Core.List.{Memᴰ}
use flareway.Base.{if_false, ◌∙◌, sym, subst, ap, ℕ, ◌≡◌, if◌then◌else◌, leb, arith, List, [], ◌∷◌}
use flareway.Freshness.Policy.{Policy, Grade, ttl, sweep_confirmation_window}
use flareway.Base.Durations.{ℤ, pos, negsuc, ◌≤ℤ◌, ◌<ℤ◌, lt_ℤ, le_ℤ, wrap64, seconds, double64}

-- `rng.Int64N`: a draw maps its bound to a number below it.
unfoldable pub IsDraw : (ℕ → ℕ) → Type 0
IsDraw draw = (n : ℕ) → 0 < n → draw n < n

unfoldable pub draw_below : ℤ → (ℕ → ℕ) → ℤ
draw_below (pos n) draw = pos (draw n)
draw_below (negsuc n) draw = pos 0

-- The bound is positive where a number is drawn.
unfoldable pub initial_delay : ℤ → (ℕ → ℕ) → ℤ
initial_delay ttl draw =
    let bound = if lt_ℤ (seconds 60) ttl then seconds 60 else ttl in
    if le_ℤ bound (pos 1) then pos 0 else draw_below bound draw

-- A fifth of a negative TTL is not positive.
unfoldable pub jittered_interval : ℤ → (ℕ → ℕ) → ℤ
jittered_interval (negsuc n) draw = negsuc n
jittered_interval (pos n) draw = if leb (n / 5) 0 then pos n else wrap64 (pos (n + draw (n / 5)))

-- The waits before so many further passes, with the draws from the given one on.
unfoldable pub intervals : ℤ → (ℕ → ℕ → ℕ) → ℕ → ℕ → List ℤ
intervals ttl draws i zero = []
intervals ttl draws i (suc passes) =
    jittered_interval ttl (draws i) ∷ intervals ttl draws (suc i) passes

-- What the loop waits before each pass, where the context is cancelled after so many further ones.
unfoldable pub run_target_loop : ℤ → ℤ → (ℕ → ℕ → ℕ) → ℕ → List ℤ
run_target_loop ttl delay draws passes =
    if le_ℤ ttl (pos 0)
    then []
    else (if le_ℤ delay (pos 0) then initial_delay ttl (draws 0) else delay)
      ∷ intervals ttl draws 1 passes

interval_bounds :
    (n : ℕ)
    → 0 < n
    → 2 * n < 2 ^ 63
    → (draw : ℕ → ℕ) → IsDraw draw
    → (pos n ≤ℤ jittered_interval (pos n) draw)
      × (jittered_interval (pos n) draw <ℤ double64 (pos n))
unfolding jittered_interval IsDraw
interval_bounds n h k draw d = let j = d (n / 5) in ground arith

-- For a positive TTL, and if rng.Int64N draws a number below its bound, initialDelay is not
-- negative, less than the TTL and less than a minute.
initial_delay_bounded :
    (n : ℕ)
    → 0 < n
    → (draw : ℕ → ℕ) → IsDraw draw
    → (pos 0 ≤ℤ initial_delay (pos n) draw)
      × ((initial_delay (pos n) draw <ℤ pos n) × (initial_delay (pos n) draw <ℤ seconds 60))
unfolding initial_delay IsDraw draw_below
initial_delay_bounded n h draw d = let j = d n in let k = d 60000000000 in ground arith

intervals_bounds :
    (n : ℕ)
    → 0 < n
    → 2 * n < 2 ^ 63
    → (draws : ℕ → ℕ → ℕ) → ((i : ℕ) → IsDraw (draws i))
    → (i passes : ℕ) (w : ℤ) → Memᴰ w (intervals (pos n) draws i passes)
    → (pos n ≤ℤ w) × (w <ℤ double64 (pos n))
unfolding intervals
intervals_bounds n h k draws d i zero w m = elim m [ ]
intervals_bounds n h k draws d i (suc passes) w (Memᴰ.head e) =
    subst (λ v. (pos n ≤ℤ v) × (v <ℤ double64 (pos n))) (sym e)
      (interval_bounds n h k (draws i) (d i))
intervals_bounds n h k draws d i (suc passes) w (Memᴰ.tail m) =
    intervals_bounds n h k draws d (suc i) passes w m

-- If rng.Int64N draws numbers below its bound, and the TTL of the grade is positive and twice it
-- fits an int64, then every wait of runTargetLoop after the first one is at least the TTL and less
-- than the confirmation window that EvaluateSweepConfirmed grants.
pub run_target_loop_paced :
    (p : Policy) (grade : Grade) (n : ℕ)
    → ttl p grade ≡ pos n
    → 0 < n
    → 2 * n < 2 ^ 63
    → (draws : ℕ → ℕ → ℕ) → ((i : ℕ) → IsDraw (draws i))
    → (delay first : ℤ) (waits : List ℤ) (passes : ℕ)
    → run_target_loop (ttl p grade) delay draws passes ≡ (first ∷ waits)
    → (w : ℤ) → Memᴰ w waits
    → (ttl p grade ≤ℤ w) × (w <ℤ sweep_confirmation_window p grade)
unfolding run_target_loop sweep_confirmation_window
run_target_loop_paced p grade n t h k draws d delay first waits passes r w m =
    let wait = if le_ℤ delay (pos 0) then initial_delay (pos n) (draws 0) else delay in
    let q : (wait ∷ intervals (pos n) draws 1 passes) ≡ (first ∷ waits) =
      sym (if_false {b = le_ℤ (pos n) (pos 0)} [] _ (ground arith))
      ∙ ap (λ v. run_target_loop v delay draws passes) (sym t)
      ∙ r in
    let tails : waits ≡ intervals (pos n) draws 1 passes = cc in
    rw t (intervals_bounds n h k draws d 1 passes w (subst (λ ws. Memᴰ w ws) tails m))
