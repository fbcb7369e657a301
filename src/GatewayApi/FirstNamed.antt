-- ===== src/GatewayApi/FirstNamed.antt =====
-- That a compiled match has the first header and the first query parameter of each name.
use mathlib.Core.List.{Memᴰ}
use flareway.Base.{
  ◌≡◌, inl, inr, refl, sym, ap, subst, ◌∙◌, Bool, true, false, Option, none, some, List, [], ◌∷◌,
  if◌then◌else◌, arith, any, Bool-cases,
}
use flareway.Base.Classes.{◌==◌, nat_eq, list_eq, ==_iff}
use flareway.Base.Bytes.{Text}
use flareway.Base.Results.{ok, passed}
use flareway.GatewayApi.Matches.{
  NamedMatch, Entry, Unsupported, type_of, is_supported, compile_named,
}

-- The first match whose name is this one.
unfoldable pub first_named : (Text → Text) → Text → List NamedMatch → Option NamedMatch
first_named norm name [] = none
first_named norm name (m ∷ ms) =
    let rest = first_named norm name ms in if norm m.name == name then some m else rest

abbrev pub entry_of : (Text → Text) → NamedMatch → Entry
entry_of norm m = record { name = norm m.name; kind = type_of m; value = m.value }

unfoldable pub is_seen : Text → List Text → Bool
is_seen name seen = any (λ s. s == name) seen

-- An entry is that of the first match of its name.
abbrev pub IsFirst : (Text → Text) → List NamedMatch → Entry → Type 0
IsFirst norm ms x = (m : NamedMatch) × (first_named norm x.name ms ≡ some m) × (entry_of norm m ≡ x)

some_inj : {a b : NamedMatch} → some a ≡ some b → a ≡ b
some_inj h = cc

module _ (norm : Text → Text) (reason : Text → Unsupported) where
  -- What one round of the loop does.
  data Round (seen : List Text) (w : NamedMatch) (ws : List NamedMatch) (es : List Entry)
      : Type 0 where
    old :
        is_seen (norm w.name) seen ≡ true
        → compile_named norm reason seen ws ≡ ok es
        → Round seen w ws es
    new :
        (rest : List Entry)
        → is_seen (norm w.name) seen ≡ false
        → is_supported w ≡ true
        → compile_named norm reason (norm w.name ∷ seen) ws ≡ ok rest
        → es ≡ entry_of norm w ∷ rest
        → Round seen w ws es

  round :
      (seen : List Text) (w : NamedMatch) (ws : List NamedMatch) (es : List Entry)
      → compile_named norm reason seen (w ∷ ws) ≡ ok es
      → Round seen w ws es
  unfolding compile_named is_seen
  round seen w ws es h = elim (Bool-cases (any (λ s. s == norm w.name) seen)) [
    | inl e ↦ old e (rw (e, compile_named) at h)
    | inr e ↦ elim (Bool-cases (is_supported w)) [
      | inl f ↦
          let (rest, p, q) =
            passed (compile_named norm reason (norm w.name ∷ seen) ws)
              (λ es. ok (entry_of norm w ∷ es)) (rw (e, f, compile_named) at h) in
          new rest e f p (cc)
      | inr f ↦ absurd (cc (rw (e, f, compile_named) at h))
    ]
  ]

  skip :
      (w : NamedMatch) (ws : List NamedMatch) (name : Text)
      → (norm w.name == name) ≡ false
      → first_named norm name (w ∷ ws) ≡ first_named norm name ws
  unfolding first_named
  skip w ws name h = rw h refl

  hit :
      (w : NamedMatch) (ws : List NamedMatch) (name : Text)
      → norm w.name ≡ name
      → first_named norm name (w ∷ ws) ≡ some w
  unfolding first_named
  hit w ws name h = rw ((==_iff (norm w.name) name).1 h) refl

  seen_differs :
      (a b : Text) (seen : List Text)
      → is_seen a seen ≡ true
      → is_seen b seen ≡ false
      → (a == b) ≡ false
  seen_differs a b seen h k = elim (Bool-cases (a == b)) [
    | inr e ↦ e
    | inl e ↦ absurd (cc ((==_iff a b).0 e))
  ]

  unseen_parts :
      (a b : Text) (seen : List Text)
      → is_seen a (b ∷ seen) ≡ false
      → ((b == a) ≡ false) × (is_seen a seen ≡ false)
  unfolding is_seen
  unseen_parts a b seen h = ground arith

  unseen_more :
      (a b : Text) (seen : List Text)
      → (b == a) ≡ false
      → is_seen a seen ≡ false
      → is_seen a (b ∷ seen) ≡ false
  unfolding is_seen
  unseen_more a b seen h k = ground arith

  pub named_sound :
      (seen : List Text) (ms : List NamedMatch) (es : List Entry) (x : Entry)
      → compile_named norm reason seen ms ≡ ok es
      → Memᴰ x es
      → (is_seen x.name seen ≡ false) × IsFirst norm ms x
  unfolding compile_named
  named_sound seen [] es x h m = let e : es ≡ [] = cc in elim (subst (λ e. Memᴰ x e) e m) [ ]
  named_sound seen (w ∷ ws) es x h m = elim (round seen w ws es h) [
    | old a b ↦
        let (n, (i, e, f)) = named_sound seen ws es x b m in
        (n, (i, skip w ws x.name (seen_differs (norm w.name) x.name seen a n) ∙ e, f))
    | new rest a b c d ↦ elim (subst (λ e. Memᴰ x e) d m) [
      | Memᴰ.head q ↦ (
        ap (λ v. is_seen v.name seen) q ∙ a,
        (w, hit w ws x.name (sym (ap (λ v. v.name) q)), sym q),
      )
      | Memᴰ.tail n ↦
          let (k, (i, e, f)) = named_sound (norm w.name ∷ seen) ws rest x c n in
          let (u, v) = unseen_parts x.name (norm w.name) seen k in
          (v, (i, skip w ws x.name u ∙ e, f))
    ]
  ]

  pub named_complete :
      (seen : List Text) (ms : List NamedMatch) (es : List Entry) (x : Entry)
      → compile_named norm reason seen ms ≡ ok es
      → is_seen x.name seen ≡ false
      → IsFirst norm ms x
      → Memᴰ x es
  unfolding first_named
  named_complete seen [] es x h n (m, e, f) = absurd (cc)
  named_complete seen (w ∷ ws) es x h n (m, e, f) = elim (round seen w ws es h) [
    | old a b ↦
        named_complete seen ws es x b n
          (m, sym (skip w ws x.name (seen_differs (norm w.name) x.name seen a n)) ∙ e, f)
    | new rest a b c d ↦
        subst (λ e. Memᴰ x e) (sym d)
          (elim (Bool-cases (norm w.name == x.name)) [
            | inl u ↦
                let q : m ≡ w =
                  some_inj (sym e ∙ hit w ws x.name ((==_iff (norm w.name) x.name).0 u)) in
                Memᴰ.head (sym f ∙ ap (entry_of norm) q)
            | inr u ↦ Memᴰ.tail (
                named_complete (norm w.name ∷ seen) ws rest x c
                  (unseen_more x.name (norm w.name) seen u n) (m, sym (skip w ws x.name u) ∙ e, f))
          ])
  ]

  -- Each first match of a name that was not seen is supported.
  abbrev pub AllSupported : List Text → List NamedMatch → Type 0
  AllSupported seen ms =
      (name : Text) (m : NamedMatch)
      → is_seen name seen ≡ false
      → first_named norm name ms ≡ some m
      → is_supported m ≡ true

  passes :
      (seen : List Text) (w : NamedMatch) (ws : List NamedMatch) {es : List Entry}
      → is_seen (norm w.name) seen ≡ true
      → compile_named norm reason seen ws ≡ ok es
      → compile_named norm reason seen (w ∷ ws) ≡ ok es
  unfolding compile_named is_seen
  passes seen w ws a e = rw a e

  adds :
      (seen : List Text) (w : NamedMatch) (ws : List NamedMatch) {es : List Entry}
      → is_seen (norm w.name) seen ≡ false
      → is_supported w ≡ true
      → compile_named norm reason (norm w.name ∷ seen) ws ≡ ok es
      → compile_named norm reason seen (w ∷ ws) ≡ ok (entry_of norm w ∷ es)
  unfolding compile_named is_seen
  adds seen w ws a b e = rw (a, b) (rw e refl)

  pub named_accepts :
      (seen : List Text) (ms : List NamedMatch)
      → AllSupported seen ms
      → (es : List Entry) × (compile_named norm reason seen ms ≡ ok es)
  unfolding compile_named
  named_accepts seen [] f = ([], refl)
  named_accepts seen (w ∷ ws) f = elim (Bool-cases (is_seen (norm w.name) seen)) [
    | inl a ↦
        let (es, e) = named_accepts seen ws (λ name m n e.
          f name m n (skip w ws name (seen_differs (norm w.name) name seen a n) ∙ e)) in
        (es, passes seen w ws a e)
    | inr a ↦
        let (es, e) = named_accepts (norm w.name ∷ seen) ws (λ name m n e.
          let (u, v) = unseen_parts name (norm w.name) seen n in
          f name m v (skip w ws name u ∙ e)) in
        (
          entry_of norm w ∷ es,
          adds seen w ws a (f (norm w.name) w a (hit w ws (norm w.name) refl)) e,
        )
  ]

  pub named_supported :
      (seen : List Text) (ms : List NamedMatch) (es : List Entry)
      → compile_named norm reason seen ms ≡ ok es
      → AllSupported seen ms
  unfolding first_named
  named_supported seen [] es h name m n e = absurd (cc)
  named_supported seen (w ∷ ws) es h name m n e = elim (round seen w ws es h) [
    | old a b ↦
        named_supported seen ws es b name m n
          (sym (skip w ws name (seen_differs (norm w.name) name seen a n)) ∙ e)
    | new rest a b c d ↦ elim (Bool-cases (norm w.name == name)) [
      | inl u ↦
          let q : m ≡ w = some_inj (sym e ∙ hit w ws name ((==_iff (norm w.name) name).0 u)) in
          ap is_supported q ∙ b
      | inr u ↦
          named_supported (norm w.name ∷ seen) ws rest c name m
            (unseen_more name (norm w.name) seen u n) (sym (skip w ws name u) ∙ e)
    ]
  ]
