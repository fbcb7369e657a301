-- ===== src/Authz/Decisions.antt =====
-- What internal/authz/evaluate.go's Evaluate decides over all grants of an account.
use mathlib.Core.List.{Memᴰ}
use flareway.Base.{
  ℕ, zero, suc, ◌+◌, ◌≡◌, ◌↔◌, inl, inr, refl, sym, ap, subst, ◌∙◌, Bool, true, false, Option, some,
  List, [], ◌∷◌, arith, Bool-cases, Option-cases, if_true, if_false,
}
use flareway.Base.Durations.{pos}
use flareway.Authz.Grants.{
  Decision, Namespace, Request, Grant, denied, evaluate_grant, evaluate_from, evaluate,
}
use flareway.Authz.Permits.{Permits}
use flareway.Authz.OneGrant.{grant_iff, grant_value}

-- The decision that names the grant at this position.
abbrev pub allowed_at : ℕ → Decision
allowed_at i = record { allowed = true; reason = "Allowed"; grant_index = pos i }

module _ {Labels Selector : Type 0} (lower : ℕ → ℕ) (selects : Selector → Labels → Option Bool)
    (ns : Namespace Labels Selector) (r : Request Labels Selector) where
  -- The grant is for the namespace, and permits all of the request by itself.
  abbrev pub Opens : Grant Labels Selector → Type 0
  Opens g = (selects g.namespace_selector ns.labels ≡ some true) × Permits lower selects g ns r

  -- The first grant that opens stands at this position.
  abbrev pub FirstAt : List (Grant Labels Selector) → ℕ → Type 0
  FirstAt [] i = ⊥
  FirstAt (g ∷ gs) zero = Opens g
  FirstAt (g ∷ gs) (suc i) = (Opens g → ⊥) × FirstAt gs i

  FirstAt-Opens :
      (gs : List (Grant Labels Selector)) (i : ℕ)
      → FirstAt gs i
      → (g : Grant Labels Selector) × Memᴰ g gs × Opens g
  FirstAt-Opens [] i f = absurd f
  FirstAt-Opens (g ∷ gs) zero f = (g, Memᴰ.head refl, f)
  FirstAt-Opens (g ∷ gs) (suc i) f = let (h, m, o) = FirstAt-Opens gs i f.1 in (h, Memᴰ.tail m, o)

  -- The outcome of the loop, whatever it found before.
  record Outcome (gs : List (Grant Labels Selector)) (index : ℕ) (d : Decision) : Type 0 where
    first : (i : ℕ) → FirstAt gs i → d ≡ allowed_at (index + i)
    complete : (g : Grant Labels Selector) → Memᴰ g gs → Opens g → d.allowed ≡ true
    sound : d.allowed ≡ true → (i : ℕ) × FirstAt gs i

  skip :
      (g : Grant Labels Selector) (gs : List (Grant Labels Selector)) (index : ℕ) (d : Decision)
      → (Opens g → ⊥)
      → Outcome gs (index + 1) d
      → Outcome (g ∷ gs) index d
  skip g gs index d n o = record {
    first = first_later;
    complete = complete_later;
    sound = λ h. let (i, f) = o.sound h in (suc i, (n, f));
  }
    where
      first_later : (i : ℕ) → FirstAt (g ∷ gs) i → d ≡ allowed_at (index + i)
      first_later zero f = absurd (n f)
      first_later (suc i) f = o.first i f.1 ∙ ap allowed_at (omega arith)

      complete_later : (x : Grant Labels Selector) → Memᴰ x (g ∷ gs) → Opens x → d.allowed ≡ true
      complete_later x (Memᴰ.head e) p = absurd (n (subst Opens e p))
      complete_later x (Memᴰ.tail m) p = o.complete x m p

  found :
      (g : Grant Labels Selector) (gs : List (Grant Labels Selector)) (index : ℕ) (d : Decision)
      → Opens g
      → d ≡ allowed_at index
      → Outcome (g ∷ gs) index d
  found g gs index d p e = record {
    first = first_here;
    complete = λ x m q. ap (λ (k : Decision). k.allowed) e;
    sound = λ h. (zero, p);
  }
    where
      first_here : (i : ℕ) → FirstAt (g ∷ gs) i → d ≡ allowed_at (index + i)
      first_here zero f = e ∙ ap allowed_at (omega arith)
      first_here (suc i) f = absurd (f.0 p)

  from_nil :
      (index : ℕ) (m : Bool) (last : Decision)
      → last.allowed ≡ false
      → (evaluate_from lower selects ns r [] index m last).allowed ≡ false
  unfolding evaluate_from denied
  from_nil index true last h = h
  from_nil index false last h = refl

  from-Outcome :
      (gs : List (Grant Labels Selector)) (index : ℕ) (m : Bool) (last : Decision)
      → last.allowed ≡ false
      → Outcome gs index (evaluate_from lower selects ns r gs index m last)
  unfolding evaluate_from denied
  from-Outcome [] index m last h = record {
    first = λ i f. absurd f;
    complete = λ x k p. elim k [ ];
    sound = λ k. absurd (cc (from_nil index m last h));
  }
  from-Outcome (g ∷ gs) index m last h =
      elim (Option-cases (selects g.namespace_selector ns.labels)) [
        | inl e ↦
            rw (e, evaluate_from)
              (skip g gs index _ (λ p. cc p.0)
                (from-Outcome gs (index + 1) m (denied "RefNotPermitted") refl))
        | inr (false, e) ↦
            rw (e, evaluate_from)
              (skip g gs index _ (λ p. cc p.0) (from-Outcome gs (index + 1) m last h))
        | inr (true, e) ↦ elim (Bool-cases (evaluate_grant lower selects g ns r).allowed) [
          | inl q ↦
              rw (e, evaluate_from)
                (subst (λ x. Outcome (g ∷ gs) index x) (sym (if_true _ _ q))
                  (found g gs index _ (e, (grant_iff lower selects g ns r).0 q)
                    (ap (λ (d : Decision). record d { grant_index = pos index })
                      (grant_value lower selects g ns r q))))
          | inr q ↦
              rw (e, evaluate_from)
                (subst (λ x. Outcome (g ∷ gs) index x) (sym (if_false _ _ q))
                  (skip g gs index _ (λ p. cc ((grant_iff lower selects g ns r).1 p.1))
                    (from-Outcome gs (index + 1) true
                      (record (evaluate_grant lower selects g ns r) { grant_index = pos index })
                      q)))
        ]
      ]

  -- For an account and a namespace that are given, Evaluate allows a request exactly if one grant
  -- of the account selects the namespace and by itself permits every gate that the request
  -- activates: hostname, zone, exposure, unprotected hostname, the four permissions, the private
  -- route and the backend.
  pub evaluate_allowed_iff :
      (grants : List (Grant Labels Selector))
      → ((evaluate lower selects (some grants) (some ns) r).allowed ≡ true)
        ↔ ((g : Grant Labels Selector) × Memᴰ g grants × Opens g)
  unfolding evaluate denied
  evaluate_allowed_iff grants =
      let o = from-Outcome grants 0 false (denied "RefNotPermitted") refl in
      (λ h. let (i, f) = o.sound h in FirstAt-Opens grants i f, λ (g, m, p). o.complete g m p)

  -- Where some grant of the account selects the namespace and permits the whole request, Evaluate's
  -- decision is to allow it, with the reason Allowed and the position of the first such grant.
  evaluate_first :
      (grants : List (Grant Labels Selector)) (i : ℕ)
      → FirstAt grants i
      → evaluate lower selects (some grants) (some ns) r ≡ allowed_at i
  unfolding evaluate denied
  evaluate_first grants i f =
      (from-Outcome grants 0 false (denied "RefNotPermitted") refl).first i f
      ∙ ap allowed_at (omega arith)
