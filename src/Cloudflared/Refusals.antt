-- ===== src/Cloudflared/Refusals.antt =====
-- The refusals of compileDirectConfig that do not come about.
use flareway.Base.{◌≡◌, refl, Bool, true, false, not, ◌&&◌, ◌||◌}
use flareway.Base.Results.{ok, refuse_if}
use flareway.Cloudflared.Errors.{CompileError}

pub refuse-pass : (b : Bool) (e : CompileError) → b ≡ false → refuse_if b e ≡ ok tt
refuse-pass true e h = absurd (cc)
refuse-pass false e h = refl

pub agree : (last all : Bool) → (last && not all) ≡ false → (not last && all) ≡ false → all ≡ last
agree true true h k = refl
agree true false h k = absurd (cc)
agree false true h k = absurd (cc)
agree false false h k = refl

pub unrefused : (b : Bool) → not b ≡ false → b ≡ true
unrefused true h = refl
unrefused false h = absurd (cc)

pub either : (b c : Bool) → (not b && not c) ≡ false → (b || c) ≡ true
either true c h = refl
either false true h = refl
either false false h = absurd (cc)

pub apart : (last all : Bool) → all ≡ last → (last && not all) ≡ false
apart true true e = refl
apart true false e = absurd (cc)
apart false all e = refl

pub apart' : (last all : Bool) → all ≡ last → (not last && all) ≡ false
apart' true all e = refl
apart' false all e = e

pub neither : (b c : Bool) → (b || c) ≡ true → (not b && not c) ≡ false
neither true c h = refl
neither false true h = refl
neither false false h = absurd (cc)
