-- ===== src/GatewayApi/Conflicts.antt =====
-- That listeners which are left unmarked do not conflict.
use mathlib.Core.List.{Memᴰ}
use flareway.Base.{
  ℕ, zero, suc, ◌≤◌, ◌≡◌, refl, sym, ap, subst, ◌∙◌, false, List, [], ◌∷◌, arith, length,
}
use flareway.Base.Classes.{nat_eq, list_eq}
use flareway.GatewayApi.Listeners.{
  ConflictReason, no_conflicts, protocol_conflict, hostname_conflict, ListenerTranslation,
  listener_conflict_reason, mark, mark_against, mark_from, mark_conflicts,
}

-- What marking leaves of a listener.
record Derives (now old : ListenerTranslation) : Type 0 where
  spec_kept : now.spec ≡ old.spec
  only_marked : now.conflicted ≡ false → old.conflicted ≡ false

-- Two listeners that are not marked do not conflict.
abbrev pub IsApart : ListenerTranslation → ListenerTranslation → Type 0
IsApart x y =
    x.conflicted ≡ false
    → y.conflicted ≡ false
    → listener_conflict_reason x.spec y.spec ≡ no_conflicts

unfoldable pub AllApart : List ListenerTranslation → Type 0
AllApart [] = Unit
AllApart (x ∷ xs) = ((y : ListenerTranslation) → Memᴰ y xs → IsApart x y) × AllApart xs

mark-Derives : (r : ConflictReason) (x : ListenerTranslation) → Derives (mark r x) x
unfolding mark
mark-Derives no_conflicts x = record { spec_kept = refl; only_marked = λ h. h }
mark-Derives protocol_conflict x = record { spec_kept = refl; only_marked = λ h. absurd (cc) }
mark-Derives hostname_conflict x = record { spec_kept = refl; only_marked = λ h. absurd (cc) }

unmarked :
    (r : ConflictReason) (x : ListenerTranslation)
    → (mark r x).conflicted ≡ false
    → r ≡ no_conflicts
unfolding mark
unmarked no_conflicts x h = refl
unmarked protocol_conflict x h = absurd (cc)
unmarked hostname_conflict x h = absurd (cc)

Derives-trans : (x y z : ListenerTranslation) → Derives x y → Derives y z → Derives x z
Derives-trans x y z h k = record {
  spec_kept = h.spec_kept ∙ k.spec_kept;
  only_marked = λ e. k.only_marked (h.only_marked e);
}

against-Derives :
    (x : ListenerTranslation) (ys : List ListenerTranslation) → Derives (mark_against x ys).0 x
unfolding mark_against
against-Derives x [] = record { spec_kept = refl; only_marked = λ h. h }
against-Derives x (y ∷ ys) =
    let r = listener_conflict_reason x.spec y.spec in
    Derives-trans _ (mark r x) x (against-Derives (mark r x) ys) (mark-Derives r x)

against_member :
    (x z : ListenerTranslation) (ys : List ListenerTranslation)
    → Memᴰ z (mark_against x ys).1
    → (y : ListenerTranslation) × Memᴰ y ys × Derives z y
unfolding mark_against
against_member x z [] m = elim m [ ]
against_member x z (y ∷ ys) (Memᴰ.head e) = (
  y,
  Memᴰ.head refl,
  subst (λ w. Derives w y) (sym e) (mark-Derives (listener_conflict_reason x.spec y.spec) y),
)
against_member x z (y ∷ ys) (Memᴰ.tail m) =
    let (w, n, d) = against_member (mark (listener_conflict_reason x.spec y.spec) x) z ys m in
    (w, Memᴰ.tail n, d)

-- The head is apart from all that it was compared with.
against_apart :
    (x z : ListenerTranslation) (ys : List ListenerTranslation)
    → Memᴰ z (mark_against x ys).1
    → z.conflicted ≡ false
    → listener_conflict_reason x.spec z.spec ≡ no_conflicts
unfolding mark_against
against_apart x z [] m h = elim m [ ]
against_apart x z (y ∷ ys) (Memᴰ.head e) h =
    let r = listener_conflict_reason x.spec y.spec in
    ap (λ w. listener_conflict_reason x.spec w.spec) e
    ∙ ap (λ s. listener_conflict_reason x.spec s) (mark-Derives r y).spec_kept
    ∙ unmarked r y (ap (λ w. w.conflicted) (sym e) ∙ h)
against_apart x z (y ∷ ys) (Memᴰ.tail m) h =
    let r = listener_conflict_reason x.spec y.spec in
    ap (λ s. listener_conflict_reason s z.spec) (sym (mark-Derives r x).spec_kept)
    ∙ against_apart (mark r x) z ys m h

from_member :
    (n : ℕ) (z : ListenerTranslation) (xs : List ListenerTranslation)
    → Memᴰ z (mark_from n xs)
    → (y : ListenerTranslation) × Memᴰ y xs × Derives z y
unfolding mark_from
from_member zero z xs m = (z, m, record { spec_kept = refl; only_marked = λ h. h })
from_member (suc n) z [] m = elim m [ ]
from_member (suc n) z (x ∷ xs) (Memᴰ.head e) =
    (x, Memᴰ.head refl, subst (λ w. Derives w x) (sym e) (against-Derives x xs))
from_member (suc n) z (x ∷ xs) (Memᴰ.tail m) =
    let (y, k, d) = from_member n z (mark_against x xs).1 m in
    let (w, j, f) = against_member x y xs k in (w, Memᴰ.tail j, Derives-trans z y w d f)

length-against :
    (x : ListenerTranslation) (ys : List ListenerTranslation)
    → length (mark_against x ys).1 ≡ length ys
unfolding mark_against
length-against x [] = refl
length-against x (y ∷ ys) =
    omega (arith, length-against (mark (listener_conflict_reason x.spec y.spec) x) ys)

from-AllApart : (n : ℕ) (xs : List ListenerTranslation) → length xs ≤ n → AllApart (mark_from n xs)
unfolding mark_from AllApart
from-AllApart zero [] h = tt
from-AllApart zero (x ∷ xs) h = absurd (omega arith)
from-AllApart (suc n) [] h = tt
from-AllApart (suc n) (x ∷ xs) h = (
  λ z m a b.
      let (y, k, d) = from_member n z (mark_against x xs).1 m in
      ap (λ s. listener_conflict_reason s z.spec) (against-Derives x xs).spec_kept
      ∙ ap (λ s. listener_conflict_reason x.spec s) d.spec_kept
      ∙ against_apart x y xs k (d.only_marked b),
  from-AllApart n (mark_against x xs).1 (omega (arith, length-against x xs)),
)

pub mark_conflicts-AllApart : (ls : List ListenerTranslation) → AllApart (mark_conflicts ls)
unfolding mark_conflicts
mark_conflicts-AllApart ls = from-AllApart (length ls) ls (omega arith)
