-- ===== src/Ownership/Examples.antt =====
-- A race of two calls for the key.
use flareway.Base.{ℕ, ◌≡◌, refl, length, Option, true, none, some, List, [], ◌∷◌}
use flareway.Base.Bytes.{Text, codes}
use flareway.Base.Results.{Result, ok}
use flareway.Ownership.Key.{
  Secret, Weather, KeyError, is_valid, read_key, reread_key, create_key, write_key,
  get_or_create_key, set_call, advance, run_calls, all_started, started, returned,
}
use flareway.Ownership.Converge.{AllFill, run_calls_converge}
use flareway.Ownership.Unattended.{IsFair, IsKept}
use flareway.Ownership.Ends.{get_or_create_key_returns}

abbrev key_a : Text
key_a = codes "aaaaaaaaaaaaaaaaaaaaaaaaaaaaaaaa"

abbrev key_b : Text
key_b = codes "bbbbbbbbbbbbbbbbbbbbbbbbbbbbbbbb"

abbrev draws : Text → Weather
draws material = record { reachable = true; heard = true; random = some material }

-- Both calls find nothing; the first creates the Secret, and the second reads it again.
abbrev race : List (ℕ × Weather)
race =
    (1, draws key_a)
    ∷ (2, draws key_b)
    ∷ (1, draws key_a)
    ∷ (2, draws key_b)
    ∷ (2, draws key_b)
    ∷ []

race-AllFill : AllFill race
unfolding AllFill is_valid
race-AllFill = (refl, (refl, (refl, (refl, (refl, tt)))))

first_returned : (run_calls race (all_started none)).calls 1 ≡ returned (ok key_a)
unfolding run_calls advance all_started get_or_create_key read_key reread_key create_key write_key
    set_call is_valid
first_returned = refl

second_returned : (run_calls race (all_started none)).calls 2 ≡ returned (ok key_a)
unfolding run_calls advance all_started get_or_create_key read_key reread_key create_key write_key
    set_call is_valid
second_returned = refl

run_calls_converge_example :
    (key_a ≡ key_a)
    × (s : Secret) × ((run_calls race (all_started none)).store ≡ some s)
    × (s.material ≡ key_a)
    × (is_valid key_a ≡ true)
run_calls_converge_example =
    run_calls_converge none race 1 2 key_a key_a race-AllFill first_returned second_returned

draws-IsFair : IsFair (draws key_b)
draws-IsFair = record { reachable = refl; heard = refl; drawn = key_b; random = refl; full = refl }

-- The Secret has a key that is too short.
abbrev broken : Option Secret
broken = some (record { version = 7; material = 1 ∷ 2 ∷ [] })

get_or_create_key_returns_example :
    let first = get_or_create_key (draws key_b) started broken in
    let second = get_or_create_key (draws key_b) first.0 broken in
    let third = get_or_create_key (draws key_b) second.0 none in
    (r : Result KeyError Text) × (third.0 ≡ returned r)
    × ((m : Text) → r ≡ ok m → length m ≡ 32)
    × (broken ≡ first.1 → (second.0 ≡ returned r) × IsKept broken second.1 r)
get_or_create_key_returns_example =
    get_or_create_key_returns (draws key_b) (draws key_b) (draws key_b) broken broken none
      draws-IsFair draws-IsFair draws-IsFair
