-- ===== src/Ownership/Key.antt =====
-- internal/ownership/ownership.go: GetOrCreateKey against an API server that other calls use too.
use flareway.Base.{
  ℕ, suc, Bool, true, false, Option, none, some, List, [], ◌∷◌, if◌then◌else◌, nat_beq, length,
}
use flareway.Base.Bytes.{Text}
use flareway.Base.Results.{Result, ok, err}

pub data KeyError : Type 0 where
  unavailable : KeyError
  no_randomness : KeyError
  conflict : KeyError
  not_found : KeyError
  no_valid_key : KeyError

-- The Secret: its resource version, and what it has under the key's name, empty if nothing.
pub record Secret : Type 0 where
  pub version : ℕ
  pub material : Text

-- Where a call stands: before its first Get, before the Update of a Secret that it read without a
-- valid key, before the Create after a Get that found nothing, before the Get after a Create that
-- was refused, or at its return.
pub data Phase : Type 0 where
  started : Phase
  repairing : ℕ → Phase
  creating : Phase
  rereading : Phase
  returned : Result KeyError Text → Phase

-- What a step meets: whether a request reaches the API server, whether the reply to a write is heard, and
-- the bytes that rand.Read gives, if any.
pub record Weather : Type 0 where
  pub reachable : Bool
  pub heard : Bool
  pub random : Option Text

unfoldable pub is_valid : Text → Bool
is_valid material = nat_beq (length material) 32

unfoldable pub read_key : Option Secret → Phase
read_key none = creating
read_key (some s) = if is_valid s.material then returned (ok s.material) else repairing s.version

unfoldable pub reread_key : Option Secret → Phase
reread_key none = returned (err not_found)
reread_key (some s) = returned (if is_valid s.material then ok s.material else err no_valid_key)

unfoldable pub create_key : Text → Option Secret → Phase × Option Secret
create_key material none =
    (returned (ok material), some (record { version = 1; material = material }))
create_key material (some s) = (rereading, some s)

-- Update carries the version that was read, and the server refuses another.
unfoldable pub repair_key : ℕ → Text → Option Secret → Phase × Option Secret
repair_key version material none = (returned (err not_found), none)
repair_key version material (some s) =
    if nat_beq version s.version
    then (returned (ok material), some (record { version = suc s.version; material = material }))
    else (returned (err conflict), some s)

-- newKeyMaterial, then the write, which may be made although the call gets an error.
unfoldable pub write_key :
    (reachable heard : Bool)
    → Option Text
    → (Text → Option Secret → Phase × Option Secret)
    → Option Secret
    → Phase × Option Secret
write_key reachable heard none write store = (returned (err no_randomness), store)
write_key true heard (some material) write store =
    let (phase, next) = write material store in
    (if heard then phase else returned (err unavailable), next)
write_key false heard (some material) write store = (returned (err unavailable), store)

unfoldable pub get_or_create_key : Weather → Phase → Option Secret → Phase × Option Secret
get_or_create_key w started store =
    (if w.reachable then read_key store else returned (err unavailable), store)
get_or_create_key w (repairing version) store =
    write_key w.reachable w.heard w.random (repair_key version) store
get_or_create_key w creating store = write_key w.reachable w.heard w.random create_key store
get_or_create_key w rereading store =
    (if w.reachable then reread_key store else returned (err unavailable), store)
get_or_create_key w (returned r) store = (returned r, store)

-- The calls by number, and the Secret that they share.
pub record World : Type 0 where
  pub calls : ℕ → Phase
  pub store : Option Secret

unfoldable pub set_call : ℕ → Phase → (ℕ → Phase) → ℕ → Phase
set_call n p calls k = if nat_beq k n then p else calls k

-- One step of one call.
unfoldable pub advance : ℕ × Weather → World → World
advance (n, w) world =
    let (p, store) = get_or_create_key w (world.calls n) world.store in
    record { calls = set_call n p world.calls; store = store }

-- Steps of any calls in any order.
unfoldable pub run_calls : List (ℕ × Weather) → World → World
run_calls [] world = world
run_calls (s ∷ steps) world = run_calls steps (advance s world)

unfoldable pub all_started : Option Secret → World
all_started store = record { calls = λ k. started; store = store }
