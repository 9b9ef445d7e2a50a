-- ===== src/Profiles/Lifetime.antt =====
-- What lasts through a change: revisions only grow, a revocation stands, an erasure goes forward, and
-- an install token leads to the profile whose token it is.
use jumpgate_bridge.Prelude.{
  ℕ, ◌≤◌, ◌==◌, list_eq, nat_eq, ◌≡◌, refl, sym, ap, ◌∙◌, subst, inl, inr, false, some, arith,
  Bool-cases,
}
use jumpgate_bridge.Prelude.Text.{Text, text_iff}
use jumpgate_bridge.Prelude.Map.{Map, get, has, set, delete, get-set, get-delete, has-get}
use jumpgate_bridge.Prelude.Map.Keys.{set_inv}
use jumpgate_bridge.Profiles.{revoked, Deletion, not_deleted, pending, deleted, Profile, Store}

-- How far an erasure has come.
unfoldable pub progress : Deletion → ℕ
progress not_deleted = 0
progress pending = 1
progress deleted = 2

pub record Grown (r r' : Profile) : Type 0 where
  pub id : r'.id ≡ r.id
  pub revision : r.revision ≤ r'.revision
  pub history : r.history_generation ≤ r'.history_generation
  pub revoked : r.status ≡ revoked → r'.status ≡ revoked
  pub deletion : progress r.deletion_state ≤ progress r'.deletion_state

pub Grown-refl : (r : Profile) → Grown r r
Grown-refl r = record {
  id = refl;
  revision = omega arith;
  history = omega arith;
  revoked = λ h. h;
  deletion = omega arith;
}

pub Grown-trans : {p q r : Profile} → Grown p q → Grown q r → Grown p r
Grown-trans a b = record {
  id = b.id ∙ a.id;
  revision = omega (arith, a.revision, b.revision);
  history = omega (arith, a.history, b.history);
  revoked = λ h. b.revoked (a.revoked h);
  deletion = omega (arith, a.deletion, b.deletion);
}

-- Since the profiles `old`: none is lost, each has grown; each stands under its id; and a token that
-- is indexed is that of the profile it leads to.
pub record Holds (old profiles : Map Text Profile) (index : Map Text Text) : Type 0 where
  pub later :
      (k : Text) (r : Profile)
      → get old k ≡ some r
      → (r' : Profile) × (get profiles k ≡ some r') × Grown r r'
  pub keyed : (k : Text) (r : Profile) → get profiles k ≡ some r → r.id ≡ k
  pub indexed :
      (h k : Text)
      → get index h ≡ some k
      → (r : Profile) × (get profiles k ≡ some r) × (r.install_token_hash ≡ h)

-- The same, between two stores.
abbrev pub Lasts : {M : Type 0} → Map Text Profile → Store M → Type 0
Lasts old s = Holds old s.profiles s.install_index

module _ (old profiles : Map Text Profile) (index : Map Text Text) (id : Text) (r r' : Profile)
    (found : get profiles id ≡ some r) (g : Grown r r') (w : Holds old profiles index) where
  same_profile : (q : Profile) → get profiles id ≡ some q → q ≡ r
  same_profile q h = cc

  later-put :
      (k : Text) (q : Profile)
      → get old k ≡ some q
      → (q' : Profile) × (get (set profiles id r') k ≡ some q') × Grown q q'
  later-put k q h =
      let (q', at, grown) = w.later k q h in
      elim (Bool-cases (id == k)) [
        | inr e ↦ (q', ground (arith, get-set profiles id k r'), grown)
        | inl e ↦
            let here : id ≡ k = (text_iff id k).0 e in
            let one : q' ≡ r =
              same_profile q' (subst (λ j. get profiles j ≡ some q') (sym here) at) in
            (
              r',
              ground (arith, get-set profiles id k r'),
              Grown-trans (subst (Grown q) one grown) g,
            )
      ]

  keyed-put : (k : Text) (q : Profile) → get (set profiles id r') k ≡ some q → q.id ≡ k
  keyed-put k q h = elim (set_inv profiles id k r' q h) [
    | inl (e, f) ↦ ap (λ x. x.id) (sym f) ∙ g.id ∙ w.keyed id r found ∙ e
    | inr (ne, at) ↦ w.keyed k q at
  ]

  -- A change of a record that keeps its token.
  pub put-Holds :
      r'.install_token_hash ≡ r.install_token_hash → Holds old (set profiles id r') index
  put-Holds same = record {
    later = later-put;
    keyed = keyed-put;
    indexed = λ h k at.
        let (q, there, e) = w.indexed h k at in
        elim (Bool-cases (id == k)) [
          | inr d ↦ (q, ground (arith, get-set profiles id k r'), e)
          | inl d ↦
              let here : id ≡ k = (text_iff id k).0 d in
              let one : q ≡ r =
                same_profile q (subst (λ j. get profiles j ≡ some q) (sym here) there) in
              (
                r',
                ground (arith, get-set profiles id k r'),
                same ∙ sym (ap (λ x. x.install_token_hash) one) ∙ e,
              )
        ];
  }

  -- A change of a record whose old token is taken out of the index.
  pub retoken-Holds : Holds old (set profiles id r') (delete index r.install_token_hash)
  retoken-Holds = record {
    later = later-put;
    keyed = keyed-put;
    indexed = λ h k at. elim (Bool-cases (r.install_token_hash == h)) [
      | inl gone ↦ absurd (ground (arith, get-delete index r.install_token_hash h))
      | inr stays ↦
          let (q, there, e) =
            w.indexed h k (ground (arith, get-delete index r.install_token_hash h)) in
          elim (Bool-cases (id == k)) [
            | inr d ↦ (q, ground (arith, get-set profiles id k r'), e)
            | inl d ↦
                let here : id ≡ k = (text_iff id k).0 d in
                let one : q ≡ r =
                  same_profile q (subst (λ j. get profiles j ≡ some q) (sym here) there) in
                let hash : r.install_token_hash ≡ h =
                  sym (ap (λ x. x.install_token_hash) one) ∙ e in
                absurd (ground (arith, text_iff r.install_token_hash h))
          ]
    ];
  }

module _ (old profiles : Map Text Profile) (index : Map Text Text)
    (w : Holds old profiles index) where
  pub index-Holds :
      (h k : Text) (r : Profile)
      → get profiles k ≡ some r
      → r.install_token_hash ≡ h
      → Holds old profiles (set index h k)
  index-Holds h k r found same = record {
    later = w.later;
    keyed = w.keyed;
    indexed = λ h' k' at. elim (set_inv index h h' k k' at) [
      | inl (e, f) ↦ (r, subst (λ j. get profiles j ≡ some r) f found, same ∙ e)
      | inr (ne, at') ↦ w.indexed h' k' at'
    ];
  }

  pub delete-Holds : (h : Text) → Holds old profiles (delete index h)
  delete-Holds h = record {
    later = w.later;
    keyed = w.keyed;
    indexed = λ h' k at. elim (Bool-cases (h == h')) [
      | inl gone ↦ absurd (ground (arith, get-delete index h h'))
      | inr stays ↦ w.indexed h' k (ground (arith, get-delete index h h'))
    ];
  }

  pub create-Holds :
      (id : Text) (r : Profile)
      → has profiles id ≡ false
      → r.id ≡ id
      → Holds old (set profiles id r) index
  create-Holds id r absent own = record {
    later = λ k q h. let (q', at, grown) = w.later k q h in (q', kept k q' at, grown);
    keyed = λ k q h. elim (set_inv profiles id k r q h) [
      | inl (e, f) ↦ ap (λ x. x.id) (sym f) ∙ own ∙ e
      | inr (ne, at) ↦ w.keyed k q at
    ];
    indexed = λ h k at. let (q, there, e) = w.indexed h k at in (q, kept k q there, e);
  }
    where
      kept : (k : Text) (q : Profile) → get profiles k ≡ some q → get (set profiles id r) k ≡ some q
      kept k q at = ground (arith, get-set profiles id k r, has-get profiles id, text_iff id k)
