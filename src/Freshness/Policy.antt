-- ===== src/Freshness/Policy.antt =====
-- internal/freshness/types.go and evaluate.go: grades, the per-grade TTL, and the gate conditions.
use flareway.Base.{ℕ, Bool, true, false, ◌||◌, ◌&&◌, not, Option, none, some, String, if◌then◌else◌}
use flareway.Base.Classes.{◌==◌, string_eq}
use flareway.Base.Durations.{ℤ, pos, lt_ℤ, le_ℤ, double64, sub64, time_sub, is_zero, seconds}

-- `type Grade int`; `unknown` stands for the integers that no constant names.
pub data Grade : Type 0 where
  always authz traffic indirect display : Grade
  unknown : ℤ → Grade

unfoldable pub is_always : Grade → Bool
is_always always = true
is_always _ = false

pub record Policy : Type 0 where
  pub authz_ttl : ℤ
  pub traffic_ttl : ℤ
  pub indirect_ttl : ℤ
  pub display_ttl : ℤ

unfoldable pub default_policy : Policy
default_policy = record {
  authz_ttl = seconds 60;
  traffic_ttl = seconds 300;
  indirect_ttl = seconds 1800;
  display_ttl = pos 0;
}

unfoldable pub ttl : Policy → Grade → ℤ
ttl p always = pos 0
ttl p authz = p.authz_ttl
ttl p traffic = p.traffic_ttl
ttl p indirect = p.indirect_ttl
ttl p display = p.display_ttl
ttl p (unknown g) = pos 0

-- The grade whose duration is negative, or the two grades that are out of order.
pub data PolicyError : Type 0 where
  negative : Grade → PolicyError
  out_of_order : Grade → Grade → PolicyError

abbrev is_negative : ℤ → Bool
is_negative d = lt_ℤ d (pos 0)

-- `a > 0 && b > 0 && a > b`.
abbrev exceeds : ℤ → ℤ → Bool
exceeds a b = lt_ℤ (pos 0) a && (lt_ℤ (pos 0) b && lt_ℤ b a)

-- `none` is the nil error.
unfoldable pub validate : Policy → Option PolicyError
validate p =
    if is_negative p.authz_ttl
    then some (negative authz)
    else if is_negative p.traffic_ttl
    then some (negative traffic)
    else if is_negative p.indirect_ttl
    then some (negative indirect)
    else if is_negative p.display_ttl
    then some (negative display)
    else if exceeds p.authz_ttl p.traffic_ttl
    then some (out_of_order authz traffic)
    else if exceeds p.traffic_ttl p.indirect_ttl
    then some (out_of_order traffic indirect)
    else if exceeds p.authz_ttl p.indirect_ttl
    then some (out_of_order authz indirect)
    else none

-- `type Decision string`; `unset` is the zero value "".
pub data Decision : Type 0 where
  unset opened closed_hash closed_ttl closed_invalidated not_gated : Decision

abbrev pub is_not_gated : Decision → Bool
is_not_gated not_gated = true
is_not_gated _ = false

pub record Gate : Type 0 where
  pub is_open : Bool
  pub requeue : ℤ
  pub decision : Decision

abbrev pub closed : Decision → Gate
closed d = record { is_open = false; requeue = pos 0; decision = d }

abbrev pub open_until : ℤ → Gate
open_until r = record { is_open = true; requeue = r; decision = opened }

unfoldable pub hash_mismatch : String → String → Bool
hash_mismatch applied desired = applied == "" || (desired == "" || not (applied == desired))

-- `age < 0 || age >= bound`.
unfoldable pub outside : ℤ → ℤ → Bool
outside age bound = lt_ℤ age (pos 0) || le_ℤ bound age

-- Step 7, behind the checks: the guard on a requeue that is not positive is kept.
unfoldable pub open_for : ℤ → ℤ → Gate
open_for bound age =
    let left = sub64 bound age in if le_ℤ left (pos 0) then closed closed_ttl else open_until left

unfoldable pub evaluate : Policy → Grade → String → String → ℕ → ℕ → Bool → Gate
evaluate p grade applied_hash desired_hash applied_at now invalidated =
    if is_always grade
    then closed not_gated
    else if le_ℤ (ttl p grade) (pos 0)
    then closed closed_ttl
    else if invalidated
    then closed closed_invalidated
    else if hash_mismatch applied_hash desired_hash
    then closed closed_hash
    else if is_zero applied_at
    then closed closed_ttl
    else if outside (time_sub now applied_at) (ttl p grade)
    then closed closed_ttl
    else open_for (ttl p grade) (time_sub now applied_at)

unfoldable pub sweep_confirmation_window : Policy → Grade → ℤ
sweep_confirmation_window p grade = double64 (ttl p grade)

unfoldable pub evaluate_sweep_confirmed : Policy → Grade → String → String → ℕ → ℕ → Bool → Gate
evaluate_sweep_confirmed p grade applied_hash desired_hash confirmed_at now invalidated =
    if is_always grade
    then closed not_gated
    else if le_ℤ (sweep_confirmation_window p grade) (pos 0)
    then closed closed_ttl
    else if invalidated
    then closed closed_invalidated
    else if hash_mismatch applied_hash desired_hash
    then closed closed_hash
    else if is_zero confirmed_at
    then closed closed_ttl
    else if outside (time_sub now confirmed_at) (sweep_confirmation_window p grade)
    then closed closed_ttl
    else open_until (sub64 (sweep_confirmation_window p grade) (time_sub now confirmed_at))
