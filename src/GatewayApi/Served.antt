-- ===== src/GatewayApi/Served.antt =====
-- That a host which some listener matches is claimed.
use mathlib.Core.List.{Memᴰ}
use flareway.Base.{
  ℕ, ◌≤◌, ◌≡◌, ◌⊎◌, inl, inr, refl, sym, subst, ◌∙◌, Bool, true, false, not, ◌&&◌, List, [], ◌∷◌,
  arith, ltb, nat_beq, nat_beq_iff, Bool-cases,
}
use flareway.Base.Classes.{◌==◌, nat_eq, list_eq, ==_iff}
use flareway.Base.Bytes.{Text}
use flareway.GatewayApi.Listeners.{
  ListenerTranslation, hostname_matches, listener_hostname_specificity, is_passed,
  listener_claims_host,
}
use flareway.GatewayApi.Claims.{IsRival}

rank : ListenerTranslation → ℕ
rank x = listener_hostname_specificity x.spec.hostname

is_live : ListenerTranslation → ListenerTranslation → Text → Bool
is_live o c host =
    o.has_ir
    && (o.accepted
        && (not o.conflicted
            && (nat_beq o.spec.port c.spec.port
                && ((o.spec.protocol == c.spec.protocol)
                    && hostname_matches o.spec.hostname host))))

live-IsRival :
    (o c : ListenerTranslation) (host : Text) → is_live o c host ≡ true → IsRival o c host
unfolding is_live
live-IsRival o c host h = record {
  programmed = ground arith;
  is_accepted = ground arith;
  unconflicted = ground arith;
  same_port = ground (arith, nat_beq_iff o.spec.port c.spec.port);
  same_protocol = (==_iff o.spec.protocol c.spec.protocol).0 (ground arith);
  matching = ground arith;
}

rival_live : (o c : ListenerTranslation) (host : Text) → IsRival o c host → is_live o c host ≡ true
unfolding is_live
rival_live o c host r = ground (
  arith,
  r.programmed,
  r.is_accepted,
  r.unconflicted,
  r.matching,
  (nat_beq_iff o.spec.port c.spec.port).1 r.same_port,
  (==_iff o.spec.protocol c.spec.protocol).1 r.same_protocol,
)

unpassed-IsRival :
    (o c : ListenerTranslation) (host : Text) → is_passed o c host ≡ false → IsRival o c host
unfolding is_passed
unpassed-IsRival o c host h = record {
  programmed = ground arith;
  is_accepted = ground arith;
  unconflicted = ground arith;
  same_port = ground (arith, nat_beq_iff o.spec.port c.spec.port);
  same_protocol = (==_iff o.spec.protocol c.spec.protocol).0 (ground arith);
  matching = ground arith;
}

IsRival-trans :
    (x y z : ListenerTranslation) (host : Text)
    → IsRival x y host
    → IsRival y z host
    → IsRival x z host
IsRival-trans x y z host r s = record {
  programmed = r.programmed;
  is_accepted = r.is_accepted;
  unconflicted = r.unconflicted;
  same_port = r.same_port ∙ s.same_port;
  same_protocol = r.same_protocol ∙ s.same_protocol;
  matching = r.matching;
}

-- Nothing in the list that is a rival of x ranks above y.
abbrev IsTop : ListenerTranslation → ListenerTranslation → Text → List ListenerTranslation → Type 0
IsTop y x host ls = (z : ListenerTranslation) → Memᴰ z ls → IsRival z x host → rank z ≤ rank y

IsTop-over :
    (y x w : ListenerTranslation) (host : Text) (ws : List ListenerTranslation)
    → (IsRival w x host → rank w ≤ rank y)
    → IsTop y x host ws
    → IsTop y x host (w ∷ ws)
IsTop-over y x w host ws f t z (Memᴰ.head e) r =
    subst (λ v. rank v ≤ rank y) (sym e) (f (subst (λ v. IsRival v x host) e r))
IsTop-over y x w host ws f t z (Memᴰ.tail m) r = t z m r

IsTop-listener :
    (x : ListenerTranslation) (host : Text) (ls : List ListenerTranslation)
    → IsRival x x host
    → (y : ListenerTranslation) × ((y ≡ x) ⊎ Memᴰ y ls) × IsRival y x host × IsTop y x host ls
IsTop-listener x host [] r = (x, inl refl, r, λ z m. elim m [ ])
IsTop-listener x host (w ∷ ws) r =
    let (y, k, s, t) = IsTop-listener x host ws r in
    elim (Bool-cases (is_live w x host && ltb (rank y) (rank w))) [
      | inl e ↦ (
        w,
        inr (Memᴰ.head refl),
        live-IsRival w x host (ground arith),
        IsTop-over w x w host ws (λ q. omega arith) (λ z m q. let a = t z m q in ground arith),
      )
      | inr e ↦ (
        y,
        elim k [ inl q ↦ inl q | inr m ↦ inr (Memᴰ.tail m) ],
        s,
        IsTop-over y x w host ws (λ q. let l = rival_live w x host q in ground arith) t,
      )
    ]

claims_top :
    (y : ListenerTranslation) (host : Text) (ls : List ListenerTranslation)
    → ((z : ListenerTranslation) → Memᴰ z ls → is_passed z y host ≡ false → rank z ≤ rank y)
    → listener_claims_host y host ls ≡ true
unfolding listener_claims_host rank
claims_top y host [] f = refl
claims_top y host (z ∷ zs) f =
    let rest = claims_top y host zs (λ w m. f w (Memᴰ.tail m)) in
    ground (arith, rest, f z (Memᴰ.head refl))

-- If a programmed listener matches a host, some programmed listener of its port and protocol that
-- matches the host claims it.
pub some_listener_claims :
    (listeners : List ListenerTranslation) (host : Text) (x : ListenerTranslation)
    → Memᴰ x listeners
    → IsRival x x host
    → (y : ListenerTranslation) × Memᴰ y listeners
      × IsRival y x host
      × (listener_claims_host y host listeners ≡ true)
some_listener_claims ls host x m r =
    let (y, k, s, t) = IsTop-listener x host ls r in
    (
      y,
      elim k [ inl e ↦ subst (λ w. Memᴰ w ls) (sym e) m | inr n ↦ n ],
      s,
      claims_top y host ls
          (λ z n p. t z n (IsRival-trans z y x host (unpassed-IsRival z y host p) s)),
    )
