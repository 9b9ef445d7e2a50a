-- ===== src/Lifecycle/Coordinator.antt =====
-- ProfileLifecycleCoordinator: the operations on a profile run one after another. A call of `run` is
-- a number, and so is its tail, the promise that settles when the call and all those before it on
-- the profile have ended. A call waits for the tail that it found, runs, and ends.
pub mod Changes
pub mod Order
pub mod Exclusion
use jumpgate_bridge.Prelude.{
  ℕ, ◌+◌, ◌==◌, list_eq, nat_eq, ◌≡◌, ◌⊎◌, Bool, true, false, Option, none, some, [], if◌then◌else◌,
}
use jumpgate_bridge.Prelude.Text.{Text}
use jumpgate_bridge.Prelude.Map.{Map, get, set, delete}
use jumpgate_bridge.Prelude.Outcome.{Result, ok, err}
use jumpgate_bridge.Value.{Value}
use jumpgate_bridge.RepositoryUtils.{assert_identifier}

pub data Stage : Type 0 where
  waiting running finished : Stage

pub record Run : Type 0 where
  pub profile : Text
  pub previous : Option ℕ
  pub stage : Stage

pub record Coordinator : Type 0 where
  pub runs : Map ℕ Run
  pub next : ℕ
  pub tails : Map Text ℕ

unfoldable pub empty_coordinator : Coordinator
empty_coordinator = record { runs = []; next = 0; tails = [] }

-- run(profileId, operation), up to its first await.
unfoldable pub start_run : Text → Coordinator → Coordinator
start_run id s = record {
  runs = set s.runs s.next (record { profile = id; previous = get s.tails id; stage = waiting });
  next = s.next + 1;
  tails = set s.tails id s.next;
}

-- The check on the argument; `operation` is a function.
unfoldable pub run_input : Value → Coordinator → Result Coordinator
unfolding start_run
run_input profile_id s = elim (assert_identifier profile_id) [
  | err e ↦ err e
  | ok id ↦ ok (start_run id s)
]

-- After `await previous`.
unfoldable pub enter_run : ℕ → Run → Coordinator → Coordinator
enter_run n r s = record s { runs = set s.runs n (record r { stage = running }) }

is_tail : Option ℕ → ℕ → Bool
is_tail none n = false
is_tail (some m) n = m == n

-- The `finally` block, however the operation ended.
unfoldable pub finish_run : ℕ → Run → Coordinator → Coordinator
unfolding is_tail
finish_run n r s = record s {
  runs = set s.runs n (record r { stage = finished });
  tails = if is_tail (get s.tails r.profile) n then delete s.tails r.profile else s.tails;
}

-- previous.then(() => gate): the call has ended, and the tail before it has settled.
pub data IsSettled (s : Coordinator) : ℕ → Type 0 where
  first :
      (n : ℕ) (r : Run)
      → get s.runs n ≡ some r
      → r.stage ≡ finished
      → r.previous ≡ none
      → IsSettled s n
  later :
      (n m : ℕ) (r : Run)
      → get s.runs n ≡ some r
      → r.stage ≡ finished
      → r.previous ≡ some m
      → IsSettled s m
      → IsSettled s n

-- What a call waits for has happened.
abbrev pub MayEnter : Coordinator → Run → Type 0
MayEnter s r = (r.previous ≡ none) ⊎ ((m : ℕ) × (r.previous ≡ some m) × IsSettled s m)

-- What may happen next, in any interleaving of the calls.
pub data Event (s : Coordinator) : Type 0 where
  starts : Text → Event s
  enters : (n : ℕ) (r : Run) → get s.runs n ≡ some r → r.stage ≡ waiting → MayEnter s r → Event s
  finishes : (n : ℕ) (r : Run) → get s.runs n ≡ some r → r.stage ≡ running → Event s

unfoldable pub step : (s : Coordinator) → Event s → Coordinator
unfolding start_run enter_run finish_run
step s (starts id) = start_run id s
step s (enters n r found waits may) = enter_run n r s
step s (finishes n r found runs) = finish_run n r s

pub data IsReachable : Coordinator → Type 0 where
  start : IsReachable empty_coordinator
  after : {s : Coordinator} → IsReachable s → (event : Event s) → IsReachable (step s event)
