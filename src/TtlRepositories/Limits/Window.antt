-- ===== src/TtlRepositories/Limits/Window.antt =====
-- The fixed window: while a key's window is open, the requests that are let through cost no more
-- than the limit, whatever other calls do.
use jumpgate_bridge.Prelude.{
  ℕ, ◌+◌, ◌-◌, ◌==◌, ◌≡◌, ◌≤◌, ◌<◌, refl, sym, subst, list_eq, nat_eq, ◌||◌, false, not, Option,
  some, List, [], ◌∷◌, min, arith, if◌then◌else◌, Bool-cases, inl, inr,
}
use jumpgate_bridge.Prelude.Text.{Text, text_iff}
use jumpgate_bridge.Prelude.Map.{get, set, Unique, get-set}
use jumpgate_bridge.Prelude.Map.Keys.{get-retain, retain-Unique, set-Unique}
use jumpgate_bridge.Prelude.Outcome.{Result, ok, err, Action, write, ◌>>◌}
use jumpgate_bridge.Prelude.Outcome.Rules.{after_result}
use jumpgate_bridge.Value.{max_safe_integer}
use jumpgate_bridge.TtlRepositories.Limits.{
  Entry, Limiter, Verdict, prune, open_window, charge, verdict, consume_hashed,
}

-- One request after the checks on its arguments: its time, key, limit, window and cost.
pub record Request : Type 0 where
  pub now : ℕ
  pub key : Text
  pub limit : ℕ
  pub window_ms : ℕ
  pub cost : ℕ

unfoldable pub request : Request → Action Limiter Verdict
request r = do write (prune r.now); consume_hashed r.now r.key r.limit r.window_ms r.cost

-- The cost that is let through under one key.
unfoldable pub admitted : Text → Request → Result Verdict → ℕ
admitted k r (err e) = 0
admitted k r (ok v) = if r.key == k then (if v.allowed then r.cost else 0) else 0

unfoldable pub serve : Text → List Request → Limiter → ℕ
unfolding admitted request
serve k [] s = 0
serve k (r ∷ rs) s = admitted k r (request r s).0 + serve k rs (request r s).1

-- The record of the key, in a repository without repeated keys.
pub record HasEntry (k : Text) (e : Entry) (s : Limiter) : Type 0 where
  pub unique : Unique s.entries
  pub found : get s.entries k ≡ some e

prune-HasEntry :
    (k : Text) (e : Entry) (now : ℕ) (s : Limiter)
    → now < e.reset_at
    → HasEntry k e s
    → HasEntry k e (prune now s)
unfolding prune
prune-HasEntry k e now s early h = record {
  unique = retain-Unique _ s.entries h.unique;
  found = rw (get-retain _ s.entries k h.unique, h.found) (ground arith);
}

-- What one request does to the key's record, and what of its cost is let through.
abbrev Step : Text → Request → Entry → Result Verdict × Limiter → Type 0
Step k r e x =
    (e' : Entry) × HasEntry k e' x.1
    × (e'.limit ≡ e.limit)
    × (e'.reset_at ≡ e.reset_at)
    × (admitted k r x.0 + min e.count e.limit ≤ min e'.count e'.limit)

unchanged :
    (k : Text) (r : Request) (e : Entry) (x : Result Verdict × Limiter)
    → HasEntry k e x.1
    → admitted k r x.0 ≡ 0
    → Step k r e x
unchanged k r e x h nothing = (e, h, refl, refl, omega arith)

charged :
    (k : Text) (r : Request) (e : Entry) (s : Limiter)
    → e.limit < max_safe_integer
    → HasEntry k e s
    → Step k r e
        (ok (verdict (charge e r.cost)), record s { entries = set s.entries k (charge e r.cost) })
unfolding admitted charge verdict
charged k r e s small h = (
  charge e r.cost,
  record {
    unique = set-Unique s.entries k _ h.unique;
    found = rw get-set (ground (arith, text_iff k k));
  },
  refl,
  refl,
  ground arith,
)

consume_same :
    (k : Text) (r : Request) (e : Entry) (s : Limiter)
    → e.limit < max_safe_integer
    → HasEntry k e s
    → Step k r e (consume_hashed r.now k r.limit r.window_ms r.cost s)
unfolding consume_hashed
consume_same k r e s small h =
    elim (Bool-cases (not (e.limit == r.limit) || not (e.window_ms == r.window_ms))) [
      | inl mismatch ↦
          rw (h.found, mismatch, consume_hashed, open_window)
            (unchanged k r e _ h (unfold admitted in refl))
      | inr match_policy ↦
          rw (h.found, match_policy, consume_hashed, open_window) (charged k r e s small h)
    ]

other_key :
    (k : Text) (r : Request) (x : Result Verdict) → (r.key == k) ≡ false → admitted k r x ≡ 0
unfolding admitted
other_key k r (err e) h = refl
other_key k r (ok v) h = rw h

set_other :
    (k : Text) (e : Entry) (j : Text) (w : Entry) (s : Limiter)
    → (j == k) ≡ false
    → HasEntry k e s
    → HasEntry k e (record s { entries = set s.entries j w })
set_other k e j w s ne h = record {
  unique = set-Unique s.entries j w h.unique;
  found = rw (get-set, ne) h.found;
}

open_window-state :
    (r : Request) (o : Option Entry) (s : Limiter)
    → (open_window r.key r.limit r.window_ms r.now o s).1 ≡ s
unfolding open_window
open_window-state r o s = ground arith

consume_other :
    (k : Text) (r : Request) (e : Entry) (s : Limiter)
    → (r.key == k) ≡ false
    → HasEntry k e s
    → Step k r e (consume_hashed r.now r.key r.limit r.window_ms r.cost s)
unfolding consume_hashed
consume_other k r e s ne h =
    after_result (Step k r e)
      (open_window r.key r.limit r.window_ms r.now (get s.entries r.key) s).0 _
      (open_window r.key r.limit r.window_ms r.now (get s.entries r.key) s).1
      (λ x _. unchanged k r e _ kept (other_key k r _ ne))
      λ w _. unchanged k r e _ (set_other k e r.key _ _ ne kept) (other_key k r _ ne)
  where
    kept : HasEntry k e (open_window r.key r.limit r.window_ms r.now (get s.entries r.key) s).1
    kept = rw open_window-state h

request-Step :
    (k : Text) (r : Request) (e : Entry) (s : Limiter)
    → e.limit < max_safe_integer
    → r.now < e.reset_at
    → HasEntry k e s
    → Step k r e (request r s)
unfolding request
request-Step k r e s small early h =
    let pruned = prune-HasEntry k e r.now s early h in
    elim (Bool-cases (r.key == k)) [
      | inr ne ↦ consume_other k r e (prune r.now s) ne pruned
      | inl eq ↦
          let same : r.key ≡ k = (text_iff r.key k).0 eq in
          subst
            (λ j. Step k r e (consume_hashed r.now j r.limit r.window_ms r.cost (prune r.now s)))
            (sym same) (consume_same k r e (prune r.now s) small pruned)
    ]

abbrev pub AllBefore : ℕ → List Request → Type 0
AllBefore t [] = Unit
AllBefore t (r ∷ rs) = (r.now < t) × AllBefore t rs

-- From an open window of a key, requests of any keys, limits and costs that all come before the
-- window's reset: the cost let through under the key is at most what the window has left.
pub serve-within-limit :
    (k : Text) (e : Entry) (rs : List Request) (s : Limiter)
    → e.limit < max_safe_integer
    → HasEntry k e s
    → AllBefore e.reset_at rs
    → serve k rs s ≤ e.limit - e.count
unfolding serve
serve-within-limit k e [] s small h early = omega arith
serve-within-limit k e (r ∷ rs) s small h early =
    let (e', h', limit, reset, paid) = request-Step k r e s small early.0 h in
    let rest = serve-within-limit k e' rs (request r s).1 (rw limit small) h' (rw reset early.1) in
    omega arith
