-- ===== src/PlaybackSessions/Invariant/Inputs.antt =====
-- What the normalisation of a binding promises to the repository.
use jumpgate_bridge.Prelude.{◌≡◌, true, arith}
use jumpgate_bridge.Prelude.Text.{Text, text}
use jumpgate_bridge.Prelude.Outcome.{ok}
use jumpgate_bridge.Value.{Value, string, Fields, property}
use jumpgate_bridge.RepositoryUtils.{is_identifier, assert_identifier}
use jumpgate_bridge.PlaybackSession.{Binding}
use jumpgate_bridge.PlaybackSession.Inputs.{
  is_playback_generation, assert_playback_generation, normalize_binding,
}
use jumpgate_bridge.PlaybackSessions.Invariant.{IsSeparable}
use jumpgate_bridge.PlaybackSessions.Invariant.Keys.{
  identifier-NulFree, playback_generation-NulFree, session_key_injective, source_key_injective,
}
use jumpgate_bridge.PlaybackSessions.State.{session_key, source_key_of}

identifier_ok : (v : Value) (s : Text) → assert_identifier v ≡ ok s → is_identifier s ≡ true
unfolding assert_identifier
identifier_ok (string t) s h = ground arith
identifier_ok v s h = cc

generation_ok :
    (v : Value) (s : Text) → assert_playback_generation v ≡ ok s → is_playback_generation s ≡ true
unfolding assert_playback_generation
generation_ok (string t) s h = ground arith
generation_ok v s h = cc

-- A normalised binding has identifiers, so its composite keys are unambiguous.
pub normalize_binding-IsSeparable :
    (fields : Fields) (b : Binding) → normalize_binding fields ≡ ok b → IsSeparable b
unfolding normalize_binding
normalize_binding-IsSeparable fields b h = record {
  profile =
      identifier-NulFree b.profile_id
        (identifier_ok (property fields (text "profileId")) b.profile_id (ground arith));
  session =
      identifier-NulFree b.session_id
        (identifier_ok (property fields (text "sessionId")) b.session_id (ground arith));
  context =
      identifier-NulFree b.context_id
        (identifier_ok (property fields (text "contextId")) b.context_id (ground arith));
  generation = playback_generation-NulFree b.playback_generation (
      generation_ok (property fields (text "playbackGeneration")) b.playback_generation
        (ground arith));
}

-- Two bindings that normalizeBinding accepts lie under the same session key only if they are of the
-- same profile and session, and under the same source key only if they are of the same profile,
-- context, playback generation and context revision.
pub normalize_binding-keys :
    (fields fields' : Fields) (b b' : Binding)
    → normalize_binding fields ≡ ok b
    → normalize_binding fields' ≡ ok b'
    → (session_key b.profile_id b.session_id ≡ session_key b'.profile_id b'.session_id
        → (b.profile_id ≡ b'.profile_id) × (b.session_id ≡ b'.session_id))
      × (source_key_of b ≡ source_key_of b'
          → (b.profile_id ≡ b'.profile_id)
            × (b.context_id ≡ b'.context_id)
            × (b.playback_generation ≡ b'.playback_generation)
            × (b.context_revision ≡ b'.context_revision))
unfolding source_key_of
normalize_binding-keys fields fields' b b' h h' =
    let i = normalize_binding-IsSeparable fields b h in
    let j = normalize_binding-IsSeparable fields' b' h' in
    (
      session_key_injective b.profile_id b'.profile_id b.session_id b'.session_id i.profile
          j.profile,
      source_key_injective b.profile_id b'.profile_id b.context_id b'.context_id
          b.playback_generation b'.playback_generation b.context_revision b'.context_revision
          i.profile j.profile i.context j.context i.generation j.generation,
    )
