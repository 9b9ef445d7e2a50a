-- ===== src/Profiles/Tokens.antt =====
-- Whom an install token lets in, after any calls.
use jumpgate_bridge.Prelude.{
  ℕ, list_eq, nat_eq, ◌≡◌, ◌≢◌, sym, ap, ◌∙◌, subst, inl, inr, Bool, Option, some, List, [],
  Option-cases,
}
use jumpgate_bridge.Prelude.Text.{Text, text}
use jumpgate_bridge.Prelude.Map.{Map, get}
use jumpgate_bridge.Prelude.Outcome.{ok}
use jumpgate_bridge.Value.{Value, Number}
use jumpgate_bridge.Profiles.{active, revoked, Profile, Store, public_view}
use jumpgate_bridge.Profiles.Records.{active_profile}
use jumpgate_bridge.Profiles.Lifetime.{Grown-refl, Grown, Grown-refl, Lasts}
use jumpgate_bridge.TokenService.{hash_token}
use jumpgate_bridge.Prelude.Outcome.Rules.{Result-cases}
use jumpgate_bridge.Profiles.Growth.{active_profile-found, is_active-active}
use jumpgate_bridge.PlaybackSessions.State.{Repository}
use jumpgate_bridge.Profiles.Operations.{get_by_install_token}
use jumpgate_bridge.Profiles.{PublicProfile}
use jumpgate_bridge.Profiles.Reachable.{Call, run, run-Lasts}

-- A new repository, with the playback sessions and the manifests that it is given.
abbrev pub empty_store : {M : Type 0} → Option Repository → Option M → Store M
empty_store playback manifests = record {
  profiles = [];
  install_index = [];
  invalidations = record { records = [] };
  playback = playback;
  manifests = manifests;
}

empty-Lasts :
    {M : Type 0} (playback : Option Repository) (manifests : Option M)
    → Lasts [] (empty_store playback manifests)
unfolding get
empty-Lasts playback manifests = record {
  later = λ k r h. cc;
  keyed = λ k r h. cc;
  indexed = λ h k e. cc;
}

same_found : {o : Option Profile} (q r : Profile) → o ≡ some q → o ≡ some r → q ≡ r
same_found q r h h' = cc

-- The profile that a token leads to.
pub record IsFound {M : Type 0} (hmac : Text → Text) (token : Value) (s : Store M)
    (p : PublicProfile) : Type 0 where
  pub profile : Profile
  pub stored : get s.profiles p.id ≡ some profile
  pub on : profile.status ≡ active
  pub current : hash_token hmac (text "install") token ≡ ok profile.install_token_hash
  pub shown : public_view profile ≡ p

module _ {M : Type 0} (hmac : Text → Text) where
  get_by_install_token_inv :
      (old : Map Text Profile) (token : Value) (s : Store M) (p : PublicProfile)
      → Lasts old s
      → get_by_install_token hmac token s ≡ some p
      → IsFound hmac token s p
  unfolding get_by_install_token
  get_by_install_token_inv old token s p w =
      elim (Result-cases (hash_token hmac (text "install") token)) [
        | inr (x, e) ↦ rw (e, get_by_install_token) (λ h. cc)
        | inl (hash, e) ↦ elim (Option-cases (get s.install_index hash)) [
          | inl f ↦ rw (e, f, get_by_install_token) (λ h. cc)
          | inr (id, f) ↦ elim (Option-cases (active_profile (get s.profiles id))) [
            | inl g ↦ rw (e, f, g, get_by_install_token) (λ h. cc)
            | inr (r, g) ↦
                rw (e, f, g, get_by_install_token)
                  (λ h.
                    let (stored, on) = active_profile-found (get s.profiles id) r g in
                    let (q, there, hashed) = w.indexed hash id f in
                    let one : q ≡ r = same_found q r there stored in
                    let shown : public_view r ≡ p = same_public (public_view r) p h in
                    let own : id ≡ p.id = sym (w.keyed id r stored) ∙ ap (λ x. x.id) shown in
                    record {
                      profile = r;
                      stored = subst (λ k. get s.profiles k ≡ some r) own stored;
                      on = is_active-active r.status on;
                      current = e ∙ ap ok (sym hashed ∙ ap (λ x. x.install_token_hash) one);
                      shown = shown;
                    })
          ]
        ]
      ]
    where
      same_public : (a b : PublicProfile) → some a ≡ some b → a ≡ b
      same_public a b h = cc

module _ {M : Type 0} (hmac : Text → Text) (json_bytes : Value → ℕ)
    (validate_envelope : Value → Bool) (request_profile_deletion : Text → Text → M → M)
    (has_profile : Text → M → Bool) (sha256 : Text → Text) (date_parse : Text → Number)
    (playback : Option Repository) (manifests : Option M) where
  abbrev pub after_calls : List Call → Store M → Store M
  after_calls calls s =
      run hmac json_bytes validate_envelope request_profile_deletion has_profile sha256 date_parse s
        calls

  -- After any calls, whether they succeeded or threw, a token that leads to a profile is the current
  -- token of that profile, and the profile is active. So a token that has been rotated away, or whose
  -- profile has been revoked or erased, leads nowhere.
  pub token-current :
      (calls : List Call) (token : Value) (p : PublicProfile)
      → get_by_install_token hmac token (after_calls calls (empty_store playback manifests))
        ≡ some p
      → IsFound hmac token (after_calls calls (empty_store playback manifests)) p
  token-current calls token p h =
      get_by_install_token_inv hmac [] token (after_calls calls (empty_store playback manifests)) p
        (run-Lasts hmac json_bytes validate_envelope request_profile_deletion has_profile sha256
          date_parse [] (empty_store playback manifests) calls (empty-Lasts playback manifests))
        h

  sound :
      (calls later_calls : List Call)
      → (let s = after_calls calls (empty_store playback manifests) in
          Lasts s.profiles (after_calls later_calls s))
  sound calls later_calls =
      let s = after_calls calls (empty_store playback manifests) in
      let w =
        run-Lasts hmac json_bytes validate_envelope request_profile_deletion has_profile sha256
          date_parse [] (empty_store playback manifests) calls (empty-Lasts playback manifests) in
      run-Lasts hmac json_bytes validate_envelope request_profile_deletion has_profile sha256
        date_parse s.profiles s later_calls
        (record { later = λ k r h. (r, h, Grown-refl r); keyed = w.keyed; indexed = w.indexed })

  -- Between any two times, no profile is lost, its revision and its history's generation do not go
  -- back, a revoked profile stays revoked, and an erasure does not go back.
  pub profiles-Grown :
      (calls later_calls : List Call) (k : Text) (r : Profile)
      → get (after_calls calls (empty_store playback manifests)).profiles k ≡ some r
      → (r' : Profile) × (get
            (after_calls later_calls (after_calls calls (empty_store playback manifests))).profiles
            k
          ≡ some r')
        × Grown r r'
  profiles-Grown calls later_calls k r h = (sound calls later_calls).later k r h

  -- Once a profile is revoked, no token leads to it after any further calls.
  pub revoked-not-found :
      (calls later_calls : List Call) (k : Text) (r : Profile) (token : Value) (p : PublicProfile)
      → get (after_calls calls (empty_store playback manifests)).profiles k ≡ some r
      → r.status ≡ revoked
      → get_by_install_token hmac token
          (after_calls later_calls (after_calls calls (empty_store playback manifests)))
        ≡ some p
      → p.id ≢ k
  revoked-not-found calls later_calls k r token p at gone h own =
      let s = after_calls calls (empty_store playback manifests) in
      let w = sound calls later_calls in
      let f = get_by_install_token_inv hmac s.profiles token (after_calls later_calls s) p w h in
      let (r', at', grown) = w.later k r at in
      let one : f.profile ≡ r' =
        same_found f.profile r'
          (subst (λ j. get (after_calls later_calls s).profiles j ≡ some f.profile) own f.stored)
          at' in
      absurd (active≢revoked (sym f.on ∙ ap (λ x. x.status) one ∙ grown.revoked gone))
    where
      active≢revoked : active ≢ revoked
      active≢revoked h = cc
