-- ===== src/TtlRepositories/Leases/Exclusion.antt =====
-- A lease excludes every other holder until its term ends, and its token ends it early.
use jumpgate_bridge.Prelude.{
  ℕ, zero, suc, ◌+◌, ◌==◌, ◌≡◌, ◌<◌, refl, subst, list_eq, nat_eq, true, false, Option, none, some,
  List, [], ◌∷◌, ◌++◌, ltb, arith, if◌then◌else◌, Bool-cases, inl, inr, length,
}
use jumpgate_bridge.Prelude.Text.{Text, text, text_iff}
use jumpgate_bridge.Prelude.Map.{get, set, delete, values, Unique, get-set, get-delete}
use jumpgate_bridge.Prelude.Map.Keys.{get-retain, retain-Unique, set-Unique}
use jumpgate_bridge.Prelude.Outcome.{Result, ok, err, Action, read, write, ◌>>=◌, ◌>>◌}
use jumpgate_bridge.Prelude.Outcome.Rules.{after_result, after_require, Result-cases}
use jumpgate_bridge.Value.{Value, string}
use jumpgate_bridge.RepositoryUtils.{add_duration}
use jumpgate_bridge.TokenService
use jumpgate_bridge.TokenService.{
  Token, matches_token, hash_token, is_hash, hash, assert_opaque_value, is_token,
}
use jumpgate_bridge.TtlRepositories.Leases.{
  Lease, Leases, Acquired, held, acquired, prune, acquire_hashed, release_hashed, issue_lease_token,
  holds, token_taken,
}

pub record HasLease (k : Text) (l : Lease) (s : Leases) : Type 0 where
  pub unique : Unique s.leases
  pub found : get s.leases k ≡ some l

prune-HasLease :
    (k : Text) (l : Lease) (now : ℕ) (s : Leases)
    → now < l.expires_at
    → HasLease k l s
    → HasLease k l (prune now s)
unfolding prune
prune-HasLease k l now s early h = record {
  unique = retain-Unique _ s.leases h.unique;
  found = rw (get-retain _ s.leases k h.unique, h.found) (ground arith);
}

-- A request for a lease, after the checks on its arguments.
pub record Attempt : Type 0 where
  pub now : ℕ
  pub key : Text
  pub owner : Text
  pub duration : ℕ
  pub randoms : ℕ → Text

module _ (hmac : Text → Text) (json_pair : Text → Text → Text) where
  unfoldable pub attempt : Attempt → Action Leases Acquired
  unfolding prune acquire_hashed
  attempt a = do
    write (prune a.now)
    existing ← read (λ s. get s.leases a.key)
    acquire_hashed hmac json_pair a.randoms a.now a.key a.owner a.duration existing

  -- How many attempts get a lease of the key.
  unfoldable pub is_won : Text → Attempt → Result Acquired → ℕ
  is_won k a (ok (acquired token expires_at)) = if a.key == k then 1 else 0
  is_won k a _ = 0

  unfoldable pub wins : Text → List Attempt → Leases → ℕ
  unfolding is_won attempt
  wins k [] s = 0
  wins k (a ∷ rest) s = is_won k a (attempt a s).0 + wins k rest (attempt a s).1

  abbrev Lost : Text → Attempt → Lease → Result Acquired × Leases → Type 0
  Lost k a l x = HasLease k l x.1 × (is_won k a x.0 ≡ 0)

  other_key :
      (k : Text) (a : Attempt) (x : Result Acquired) → (a.key == k) ≡ false → is_won k a x ≡ 0
  unfolding is_won
  other_key k a (ok (held t)) h = refl
  other_key k a (ok (acquired token t)) h = rw h
  other_key k a (err e) h = refl

  acquire_other :
      (k : Text) (a : Attempt) (l : Lease) (o : Option Lease) (s : Leases)
      → (a.key == k) ≡ false
      → HasLease k l s
      → Lost k a l (acquire_hashed hmac json_pair a.randoms a.now a.key a.owner a.duration o s)
  unfolding acquire_hashed
  acquire_other k a l (some other) s ne h = (h, unfold is_won in refl)
  acquire_other k a l none s ne h =
      after_require (Lost k a l) (ltb (length s.leases) s.max_leases) _ _ s
        (λ _. (h, unfold is_won in refl))
        λ _.
          after_result (Lost k a l) (issue_lease_token hmac json_pair 8 a.randoms s) _ s
            (λ e _. (h, unfold is_won in refl))
            λ issued _.
              after_result (Lost k a l) (add_duration a.now a.duration) _ s
                (λ e _. (h, unfold is_won in refl))
                λ expires_at _. (
                  record {
                    unique = set-Unique s.leases a.key _ h.unique;
                    found = rw (get-set, ne) h.found;
                  },
                  other_key k a _ ne,
                )

  attempt-Lost :
      (k : Text) (a : Attempt) (l : Lease) (s : Leases)
      → a.now < l.expires_at
      → HasLease k l s
      → Lost k a l (attempt a s)
  unfolding attempt
  attempt-Lost k a l s early h =
      let pruned = prune-HasLease k l a.now s early h in
      elim (Bool-cases (a.key == k)) [
        | inr ne ↦ acquire_other k a l (get (prune a.now s).leases a.key) (prune a.now s) ne pruned
        | inl eq ↦
            let same : a.key ≡ k = (text_iff a.key k).0 eq in
            let taken : get (prune a.now s).leases a.key ≡ some l = rw same pruned.found in
            rw (taken, attempt, acquire_hashed) (pruned, unfold is_won in refl)
      ]

  abbrev pub AllBefore : ℕ → List Attempt → Type 0
  AllBefore t [] = Unit
  AllBefore t (a ∷ rest) = (a.now < t) × AllBefore t rest

  -- While a key is leased, attempts by anyone, on any keys, that all come before the end of the
  -- lease's term get no lease of that key.
  pub wins-leased :
      (k : Text) (l : Lease) (attempts : List Attempt) (s : Leases)
      → HasLease k l s
      → AllBefore l.expires_at attempts
      → wins k attempts s ≡ 0
  unfolding wins
  wins-leased k l [] s h early = refl
  wins-leased k l (a ∷ rest) s h early =
      let (kept, lost) = attempt-Lost k a l s early.0 h in
      omega (arith, lost, wins-leased k l rest (attempt a s).1 kept early.1)

  issued_hash :
      (attempts : ℕ) (randoms : ℕ → Text) (s : Leases) (issued : Token)
      → issue_lease_token hmac json_pair attempts randoms s ≡ ok issued
      → hash_token hmac (text "lease") (string issued.token) ≡ ok issued.token_hash
  unfolding issue_lease_token TokenService.issue
  issued_hash zero randoms s issued h = cc
  issued_hash (suc attempts) randoms s issued h =
      elim (Result-cases (hash_token hmac (text "lease") (string (randoms attempts)))) [
        | inr (e, refused) ↦ cc (rw (refused, issue_lease_token, TokenService.issue) at h)
        | inl (g, hashed) ↦
            let fresh : Token = record { token = randoms attempts; token_hash = g } in
            elim (Bool-cases (token_taken g (values s.leases))) [
              | inl taken ↦
                  issued_hash attempts randoms s issued
                    (rw (hashed, taken, issue_lease_token, TokenService.issue) at h)
              | inr free ↦
                  let same : fresh ≡ issued =
                    ground (arith, rw (hashed, free, issue_lease_token, TokenService.issue) at h) in
                  rw (← same) hashed
            ]
      ]

  matches_issued :
      (issued : Token)
      → ((m : Text) → is_hash (hmac m) ≡ true)
      → hash_token hmac (text "lease") (string issued.token) ≡ ok issued.token_hash
      → is_hash issued.token_hash ≡ true
      → matches_token hmac (text "lease") (string issued.token) issued.token_hash ≡ true
  unfolding matches_token
  matches_issued issued digest hashed well =
      rw (hashed, well) (ground (arith, text_iff issued.token_hash issued.token_hash))

  is_hash_of_token :
      (v : Value) (h : Text)
      → ((m : Text) → is_hash (hmac m) ≡ true)
      → hash_token hmac (text "lease") v ≡ ok h
      → is_hash h ≡ true
  unfolding hash_token hash
  is_hash_of_token v h digest e = elim (Result-cases (assert_opaque_value v 512)) [
    | inr (x, refused) ↦ cc (rw (refused, hash_token) at e)
    | inl (value, accepted) ↦ elim (Bool-cases (is_token value)) [
      | inr ill ↦ cc (rw (accepted, ill, hash_token) at e)
      | inl well ↦
          let same : hmac (text "jumpgate-token:v1" ++ (0 ∷ (text "lease" ++ (0 ∷ value)))) ≡ h =
            cc (rw (accepted, well, hash_token) at e) in
          rw (← same) (digest _)
    ]
  ]

  -- What the release of a fresh lease by its own token does.
  abbrev Frees : Text → Result Acquired × Leases → Type 0
  Frees k (ok (acquired token e), t) =
      release_hashed hmac json_pair k (string token) t
      ≡ (ok true, record t { leases = delete t.leases k })
  Frees k _ = Unit

  frees_stored :
      (k : Text) (l : Lease) (s : Leases) (token : Text)
      → matches_token hmac (text "lease") (string token) l.lease_token_hash ≡ true
      → release_hashed hmac json_pair k (string token) (record s { leases = set s.leases k l })
        ≡ (ok true, record s { leases = delete (set s.leases k l) k })
  unfolding release_hashed holds
  frees_stored k l s token own = rw (get-set, (text_iff k k).1 refl, own)

  acquire-Frees :
      (a : Attempt) (o : Option Lease) (s : Leases)
      → ((m : Text) → is_hash (hmac m) ≡ true)
      → Frees a.key (acquire_hashed hmac json_pair a.randoms a.now a.key a.owner a.duration o s)
  unfolding acquire_hashed
  acquire-Frees a (some l) s digest = tt
  acquire-Frees a none s digest =
      after_require (Frees a.key) (ltb (length s.leases) s.max_leases) _ _ s (λ _. tt)
        λ _.
          after_result (Frees a.key) (issue_lease_token hmac json_pair 8 a.randoms s) _ s
            (λ e _. tt)
            λ issued drawn.
              after_result (Frees a.key) (add_duration a.now a.duration) _ s (λ e _. tt)
                λ expires_at _.
                  let hashed = issued_hash 8 a.randoms s issued drawn in
                  let own =
                    matches_issued issued digest hashed
                      (is_hash_of_token (string issued.token) issued.token_hash digest hashed) in
                  frees_stored a.key _ s issued.token own

  -- A lease that has just been taken is given back by the token that came with it, and the key is
  -- free again; HMAC yields 64 hexadecimal digits.
  pub attempt-release :
      (a : Attempt) (s t : Leases) (token : Text) (expires_at : ℕ)
      → ((m : Text) → is_hash (hmac m) ≡ true)
      → attempt a s ≡ (ok (acquired token expires_at), t)
      → (release_hashed hmac json_pair a.key (string token) t
          ≡ (ok true, record t { leases = delete t.leases a.key }))
        × (get (delete t.leases a.key) a.key ≡ none)
  unfolding attempt
  attempt-release a s t token expires_at digest h = (
    subst (Frees a.key) h
        (acquire-Frees a (get (prune a.now s).leases a.key) (prune a.now s) digest),
    rw (get-delete, (text_iff a.key a.key).1 refl),
  )
