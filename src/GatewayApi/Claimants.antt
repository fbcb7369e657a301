-- ===== src/GatewayApi/Claimants.antt =====
-- That every host has one listener that claims it, once the conflicts are marked.
use mathlib.Core.List.{Memᴰ}
use flareway.Base.{
  ◌≡◌, ◌≢◌, ◌⊎◌, inl, inr, refl, sym, ap, subst, ◌∙◌, true, false, Option, none, some, List, [],
  ◌∷◌, arith, nat_beq_iff, Bool-cases,
}
use flareway.Base.Classes.{nat_eq, list_eq, ==_iff}
use flareway.Base.Bytes.{Text}
use flareway.GatewayApi.Listeners.{
  hostname_conflict, Listener, ListenerTranslation, hostname_conflicts, listener_conflict_reason,
  mark_conflicts, listener_claims_host,
}
use flareway.GatewayApi.Claims.{
  IsRival, not_passed, claims_bound, IsShort, value_of, shape_of, same_value,
}
use flareway.GatewayApi.Conflicts.{IsApart, AllApart, mark_conflicts-AllApart}

apart :
    (x y : ListenerTranslation) (ls : List ListenerTranslation)
    → AllApart ls
    → Memᴰ x ls
    → Memᴰ y ls
    → x.position ≢ y.position
    → IsApart x y ⊎ IsApart y x
unfolding AllApart
apart x y [] a m k n = elim m [ ]
apart x y (z ∷ zs) a (Memᴰ.head e) (Memᴰ.head f) n = absurd (n (ap (λ w. w.position) (e ∙ sym f)))
apart x y (z ∷ zs) a (Memᴰ.head e) (Memᴰ.tail k) n =
    inl (subst (λ w. IsApart w y) (sym e) (a.0 y k))
apart x y (z ∷ zs) a (Memᴰ.tail m) (Memᴰ.head f) n =
    inr (subst (λ w. IsApart w x) (sym f) (a.0 x m))
apart x y (z ∷ zs) a (Memᴰ.tail m) (Memᴰ.tail k) n = apart x y zs a.1 m k n

same_conflicts :
    (g h : Option Text)
    → g ≢ some []
    → h ≢ some []
    → value_of g ≡ value_of h
    → hostname_conflicts g h ≡ hostname_conflict
unfolding hostname_conflicts
same_conflicts none none a b e = refl
same_conflicts none (some h) a b e = absurd (b (ap some (sym e)))
same_conflicts (some g) none a b e = absurd (a (ap some e))
same_conflicts (some g) (some h) a b e = rw ((==_iff g h).1 e) refl

conflicting :
    (a b : Listener)
    → a.port ≡ b.port
    → a.protocol ≡ b.protocol
    → a.hostname ≢ some []
    → b.hostname ≢ some []
    → value_of a.hostname ≡ value_of b.hostname
    → listener_conflict_reason a b ≡ hostname_conflict
unfolding listener_conflict_reason
conflicting a b p q u v e =
    rw ((nat_beq_iff a.port b.port).1 p, (==_iff a.protocol b.protocol).1 q)
      (same_conflicts a.hostname b.hostname u v e)

-- A hostname as the API admits it.
abbrev pub IsHostname : Option Text → Type 0
IsHostname h = (h ≢ some []) × IsShort h

-- Once translateListeners has marked the conflicts, of two listeners of the same port and protocol
-- that are programmed and whose hostnames match a host, at most one claims it in
-- listenerClaimsHost, if both hostnames are absent or not empty and shorter than 10000 bytes.
pub one_listener_claims :
    (listeners : List ListenerTranslation) (host : Text) (x y : ListenerTranslation)
    → Memᴰ x (mark_conflicts listeners)
    → Memᴰ y (mark_conflicts listeners)
    → x.position ≢ y.position
    → IsRival x y host
    → IsRival y x host
    → IsHostname x.spec.hostname
    → IsHostname y.spec.hostname
    → listener_claims_host x host (mark_conflicts listeners) ≡ true
    → listener_claims_host y host (mark_conflicts listeners) ≡ false
one_listener_claims ls host x y m k n r s (a, b) (c, d) h =
    elim (Bool-cases (listener_claims_host y host (mark_conflicts ls))) [
      | inr e ↦ e
      | inl e ↦
          let low =
            claims_bound x y host (mark_conflicts ls) h k
              (not_passed y x host s (λ q. n (sym q))) in
          let high = claims_bound y x host (mark_conflicts ls) e m (not_passed x y host r n) in
          let same =
            same_value host (value_of x.spec.hostname) (value_of y.spec.hostname) _ _
              (shape_of x.spec.hostname host b r.matching)
              (shape_of y.spec.hostname host d s.matching) (omega arith) in
          elim (apart x y (mark_conflicts ls) (mark_conflicts-AllApart ls) m k n) [
            | inl p ↦
                let t = conflicting x.spec y.spec r.same_port r.same_protocol a c same in
                absurd (cc (p r.unconflicted s.unconflicted))
            | inr p ↦
                let t = conflicting y.spec x.spec s.same_port s.same_protocol c a (sym same) in
                absurd (cc (p s.unconflicted r.unconflicted))
          ]
    ]
