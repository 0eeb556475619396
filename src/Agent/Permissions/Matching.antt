-- ===== src/Agent/Permissions/Matching.antt =====
-- Which grants `matchGrantFromArray` of packages/agent/src/permissions-api.ts answers with.
use web5_js.Base.{
  Text, Option, none, some, List, [], ◌∷◌, Bool, true, false, ◌&&◌, not, if◌then◌else◌, ◌≡◌, refl,
  subst, ◌↔◌, inl, inr, arith, All, Bool-cases,
}
use web5_js.Agent.Permissions.{
  GrantEntry, MessageParams, match_scope_from_grant, match_grant_from_array, is_true,
}
use web5_js.Agent.Permissions.Scopes.{Fits, match_scope_sound, match_scope_complete}

-- An entry that the request can use: its grant fits, and is a delegated one where that is asked for.
pub record Usable (grantor grantee : Text) (p : MessageParams) (delegated : Bool) (e : GrantEntry)
    : Type 0 where
  pub fits : Fits grantor grantee p e.grant
  pub is_delegated : delegated ≡ true → e.grant.delegated ≡ some true

some_not_none : {x : GrantEntry} → some x ≡ none → ⊥
some_not_none h = cc

pub some_eq : {x y : GrantEntry} → some x ≡ some y → x ≡ y
some_eq h = cc

some-true : (o : Option Bool) → is_true o ≡ true → o ≡ some true
some-true none h = cc
some-true (some true) h = refl
some-true (some false) h = cc

module _ (grantor grantee : Text) (p : MessageParams) (delegated : Bool) where
  -- What is returned is the first usable entry: one that stands in the list, behind entries none of
  -- which is usable.
  pub data First (e : GrantEntry) : List GrantEntry → Type 0 where
    here : {es : List GrantEntry} → Usable grantor grantee p delegated e → First e (e ∷ es)
    later :
        {d : GrantEntry} {es : List GrantEntry}
        → ¬ Usable grantor grantee p delegated d
        → First e es
        → First e (d ∷ es)

module _ (grantor grantee : Text) (p : MessageParams) (delegated : Bool) where
  accepts : GrantEntry → Bool
  accepts e =
      if delegated && not (is_true e.grant.delegated)
      then false
      else match_scope_from_grant grantor grantee e.grant p

  accepts_sound : (e : GrantEntry) → accepts e ≡ true → Usable grantor grantee p delegated e
  unfolding accepts
  accepts_sound e h = record {
    fits = match_scope_sound grantor grantee e.grant p (ground arith);
    is_delegated = λ d. some-true e.grant.delegated (ground arith);
  }

  accepts_complete : (e : GrantEntry) → Usable grantor grantee p delegated e → accepts e ≡ true
  unfolding accepts
  accepts_complete e u = elim (Bool-cases delegated) [
    | inr plain ↦ ground (arith, match_scope_complete grantor grantee e.grant p u.fits)
    | inl asked ↦
        ground (arith, u.is_delegated asked, match_scope_complete grantor grantee e.grant p u.fits)
  ]

  match_step :
      (e : GrantEntry) (es : List GrantEntry)
      → match_grant_from_array grantor grantee p (e ∷ es) delegated
        ≡ (if accepts e then some e else match_grant_from_array grantor grantee p es delegated)
  unfolding match_grant_from_array accepts
  match_step e es = ground arith

  not-Usable : (e : GrantEntry) → accepts e ≡ false → ¬ Usable grantor grantee p delegated e
  not-Usable e h u = let k = accepts_complete e u in cc

pub match_grant-First :
    (grantor grantee : Text) (p : MessageParams) (delegated : Bool) (es : List GrantEntry)
    (e : GrantEntry)
    → match_grant_from_array grantor grantee p es delegated ≡ some e
    → First grantor grantee p delegated e es
match_grant-First grantor grantee p delegated [] e h = unfold match_grant_from_array in cc (h)
match_grant-First grantor grantee p delegated (d ∷ es) e h =
    elim (Bool-cases (accepts grantor grantee p delegated d)) [
      | inl good ↦
          let same : d ≡ e =
            some_eq (rw (match_step grantor grantee p delegated d es, good) at h) in
          subst (λ x. First grantor grantee p delegated x (d ∷ es)) same
            (here (accepts_sound grantor grantee p delegated d good))
      | inr bad ↦ later (not-Usable grantor grantee p delegated d bad) (
          match_grant-First grantor grantee p delegated es e
            (rw (match_step grantor grantee p delegated d es, bad) at h))
    ]

match_grant-none_iff :
    (grantor grantee : Text) (p : MessageParams) (delegated : Bool) (es : List GrantEntry)
    → (match_grant_from_array grantor grantee p es delegated ≡ none)
      ↔ All (λ e. ¬ Usable grantor grantee p delegated e) es
match_grant-none_iff grantor grantee p delegated [] =
    (λ _. tt, λ _. unfold match_grant_from_array in refl)
match_grant-none_iff grantor grantee p delegated (d ∷ es) =
    let (to, from) = match_grant-none_iff grantor grantee p delegated es in
    elim (Bool-cases (accepts grantor grantee p delegated d)) [
      | inl good ↦ (
        λ h. absurd (some_not_none (rw (match_step grantor grantee p delegated d es, good) at h)),
        λ (bad, _). absurd (bad (accepts_sound grantor grantee p delegated d good)),
      )
      | inr bad ↦ (
        λ h. (
          not-Usable grantor grantee p delegated d bad,
          to (rw (match_step grantor grantee p delegated d es, bad) at h),
        ),
        λ (_, rest). rw (match_step grantor grantee p delegated d es, bad) (from rest),
      )
    ]

match_grant_complete :
    (grantor grantee : Text) (p : MessageParams) (delegated : Bool) (es : List GrantEntry)
    (e : GrantEntry)
    → First grantor grantee p delegated e es
    → match_grant_from_array grantor grantee p es delegated ≡ some e
match_grant_complete grantor grantee p delegated [] e f = elim f [ ]
match_grant_complete grantor grantee p delegated (e ∷ es) _ (here u) =
    rw
      (
        match_step grantor grantee p delegated e es,
        accepts_complete grantor grantee p delegated e u,
      )
      refl
match_grant_complete grantor grantee p delegated (d ∷ es) e (later bad f) =
    elim (Bool-cases (accepts grantor grantee p delegated d)) [
      | inl good ↦ absurd (bad (accepts_sound grantor grantee p delegated d good))
      | inr passed ↦
          rw (match_step grantor grantee p delegated d es, passed)
            (match_grant_complete grantor grantee p delegated es e f)
    ]

-- `matchGrantFromArray` answers with an entry exactly if it is the first usable entry of the list: one
-- whose grant is from the grantor to the grantee, for the message type, with a scope that allows the
-- protocol, protocol path and context of the request, and delegated if that is asked for. It answers
-- with nothing exactly if no entry is usable.
pub match_grant-First_iff :
    (grantor grantee : Text) (p : MessageParams) (delegated : Bool) (es : List GrantEntry)
    → ((e : GrantEntry)
        → (match_grant_from_array grantor grantee p es delegated ≡ some e)
          ↔ First grantor grantee p delegated e es)
      × ((match_grant_from_array grantor grantee p es delegated ≡ none)
          ↔ All (λ e. ¬ Usable grantor grantee p delegated e) es)
match_grant-First_iff grantor grantee p delegated es = (
  λ e. (
    match_grant-First grantor grantee p delegated es e,
    match_grant_complete grantor grantee p delegated es e,
  ),
  match_grant-none_iff grantor grantee p delegated es,
)
