-- ===== src/Generations.antt =====
-- MemoryManagementGenerationStore of lib/storage/memory-repositories.js: the generation of each
-- profile's management access, and whether it has been revoked.
use jumpgate_bridge.Prelude.{
  ℕ, ◌+◌, ◌==◌, list_eq, nat_eq, Bool, true, false, ◌&&◌, not, none, some, ltb, if◌then◌else◌,
}
use jumpgate_bridge.Prelude.Text.{Text}
use jumpgate_bridge.Prelude.Map.{Map, get, set}
use jumpgate_bridge.Prelude.Outcome.{ok, err, Action, plain_error}
use jumpgate_bridge.Value.{max_safe_integer}

pub record Generation : Type 0 where
  pub generation : ℕ
  pub is_revoked : Bool

abbrev pub Generations : Type 0
Generations = Map Text Generation

-- read, on an identifier.
unfoldable pub current : Generations → Text → Generation
current s id = elim (get s id) [ none ↦ record { generation = 0; is_revoked = false } | some g ↦ g ]

-- isCurrent
unfoldable pub is_current : Generations → Text → ℕ → Bool
unfolding current
is_current s id generation =
    not (current s id).is_revoked && (current s id).generation == generation

-- revoke, on an identifier.
unfoldable pub revoke : Text → Action Generations Generation
unfolding current
revoke id s =
    if (current s id).is_revoked
    then (ok (current s id), s)
    else if ltb (current s id).generation max_safe_integer
    then (
      ok (record { generation = (current s id).generation + 1; is_revoked = true }),
      set s id (record { generation = (current s id).generation + 1; is_revoked = true }),
    )
    else (err plain_error, s)
