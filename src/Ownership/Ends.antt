-- ===== src/Ownership/Ends.antt =====
-- That a call of GetOrCreateKey returns, and that it returns a valid key which the Secret holds.
use flareway.Base.{
  ℕ, ◌≤◌, ◌-◌, ◌≡◌, refl, sym, ap, subst, ◌∙◌, Bool, true, false, Option, none, some, arith, length,
}
use flareway.Base.Bytes.{Text}
use flareway.Base.Results.{Result, ok}
use flareway.Ownership.Key.{
  Secret, Phase, Weather, KeyError, read_key, reread_key, create_key, repair_key, write_key,
  get_or_create_key, started, repairing, creating, rereading, returned,
}
use flareway.Ownership.Unattended.{
  IsFair, IsKept, IsFull, step-IsFull, first_read, stays, alone-IsKept,
}

-- The steps that a call has left at most.
left : Phase → ℕ
left started = 3
left (repairing v) = 1
left creating = 2
left rereading = 1
left (returned r) = 0

step_left :
    (w : Weather) (p : Phase) (store : Option Secret)
    → left (get_or_create_key w p store).0 ≤ left p - 1
unfolding get_or_create_key left read_key reread_key create_key repair_key write_key
step_left w started none = ground arith
step_left w started (some s) = ground arith
step_left w (repairing v) store = writes w.reachable w.heard w.random store
  where
    writes :
        (reachable heard : Bool) (random : Option Text) (held : Option Secret)
        → left (write_key reachable heard random (repair_key v) held).0 ≤ 0
    writes reachable heard none held = omega arith
    writes false heard (some m) held = omega arith
    writes true heard (some m) none = ground arith
    writes true heard (some m) (some s) = ground arith
step_left w creating store = writes w.reachable w.heard w.random store
  where
    writes :
        (reachable heard : Bool) (random : Option Text) (held : Option Secret)
        → left (write_key reachable heard random create_key held).0 ≤ 1
    writes reachable heard none held = omega arith
    writes false heard (some m) held = omega arith
    writes true heard (some m) none = ground arith
    writes true heard (some m) (some s) = ground arith
step_left w rereading none = ground arith
step_left w rereading (some s) = ground arith
step_left w (returned r) store = omega arith

nothing_left : (p : Phase) → left p ≡ 0 → (r : Result KeyError Text) × (p ≡ returned r)
unfolding left
nothing_left started h = absurd (omega arith)
nothing_left (repairing v) h = absurd (omega arith)
nothing_left creating h = absurd (omega arith)
nothing_left rereading h = absurd (omega arith)
nothing_left (returned r) h = (r, refl)

-- If requests reach the API server, its replies are heard and every random key that is drawn has
-- its 32 bytes, then a call of GetOrCreateKey returns after at most three steps, whatever the
-- Secret is at each of them, and a key that it returns has 32 bytes. If nobody has changed the
-- Secret between the first two steps, it has returned after these a key of 32 bytes, which the
-- Secret then holds; a Secret that had a valid key is as it was, and one that was there and has
-- changed has the next version.
pub get_or_create_key_returns :
    (u v w : Weather) (a b c : Option Secret)
    → IsFair u
    → IsFair v
    → IsFair w
    → let first = get_or_create_key u started a in
      let second = get_or_create_key v first.0 b in
      let third = get_or_create_key w second.0 c in
      (r : Result KeyError Text) × (third.0 ≡ returned r)
      × ((m : Text) → r ≡ ok m → length m ≡ 32)
      × (b ≡ first.1 → (second.0 ≡ returned r) × IsKept a second.1 r)
unfolding left
get_or_create_key_returns u v w a b c f g h =
    let first = get_or_create_key u started a in
    let second = get_or_create_key v first.0 b in
    let (r, e) =
      nothing_left _
        (omega (arith, step_left u started a, step_left v first.0 b, step_left w second.0 c)) in
    (
      r,
      e,
      λ m q. full_answer m (
          subst IsFull (e ∙ ap returned q) (
            step-IsFull w second.0 c h (step-IsFull v first.0 b g (step-IsFull u started a f tt)))),
      λ q. unattended r e q,
    )
  where
    unattended :
        (r : Result KeyError Text)
        → (get_or_create_key w (get_or_create_key v (get_or_create_key u started a).0 b).0 c).0
          ≡ returned r
        → b ≡ (get_or_create_key u started a).1
        → ((get_or_create_key v (get_or_create_key u started a).0 b).0 ≡ returned r)
          × IsKept a (get_or_create_key v (get_or_create_key u started a).0 b).1 r
    unattended r e q =
        let (x, y, z) = alone-IsKept v a g in
        let met : get_or_create_key v (get_or_create_key u started a).0 b
            ≡ get_or_create_key v (read_key a) a =
          ap (λ (s : Phase × Option Secret). get_or_create_key v s.0 b) (first_read u a f)
          ∙ ap (get_or_create_key v (read_key a))
              (q ∙ ap (λ (s : Phase × Option Secret). s.1) (first_read u a f)) in
        let k : x ≡ r = stays w _ c x r (ap (λ (s : Phase × Option Secret). s.0) met ∙ y) e in
        subst
          (λ z.
            ((get_or_create_key v (get_or_create_key u started a).0 b).0 ≡ returned z)
            × IsKept a (get_or_create_key v (get_or_create_key u started a).0 b).1 z)
          k
          (subst (λ (s : Phase × Option Secret). (s.0 ≡ returned x) × IsKept a s.1 x) (sym met)
            (y, z))

    full_answer : (m : Text) → IsFull (returned (ok m)) → length m ≡ 32
    full_answer m k = k
