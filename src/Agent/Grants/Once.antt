-- ===== src/Agent/Grants/Once.antt =====
-- What a grant that was consumed shows, and that it and its draft are used up
-- (backend/src/yitu/agent/domain/grants.py).
use yitu.Base.{
  ℕ, ◌≡◌, refl, true, false, ◌&&◌, ap, Option, none, some, arith, ◌<◌, ◌==◌, opt_eq, Option-cases,
  eq-of_==, ==_self, sym, inl, inr,
}
use yitu.Agent.Validation.{validate_service_combination}
use yitu.Agent.Grants.{redeem, consume, at_revision, is_ready, used, ordered}
use yitu.Platform.Errors.{ok, is_ok, Result-cases}
use yitu.Platform.Json.{Key}
use yitu.Store.Drafts.{ShipmentDraft, AgentShipmentDraft, AgentActionGrant}
use yitu.Store.Queries.{find_draft, find_draft-put, find_grant, put_draft, put_grant}
use yitu.Store.Rows.{CurrentUser}
use yitu.Store.Session.{Session}

at_revision-some :
    (r : ℕ) (o : Option AgentShipmentDraft) {d : AgentShipmentDraft}
    → at_revision r o ≡ some d
    → (o ≡ some d) × (d.revision ≡ r)
at_revision-some r none h = absurd (ground arith)
at_revision-some r (some x) {d} h = (ground (arith, h), ground (arith, h, eq-of_== x.revision r))

opt_eq-some : (o : Option ℕ) (n : ℕ) → opt_eq o (some n) ≡ true → o ≡ some n
opt_eq-some none n h = absurd (ground arith)
opt_eq-some (some m) n h = ground (arith, eq-of_== m n)

validate-same :
    (x : ShipmentDraft) {c : ShipmentDraft} → validate_service_combination x ≡ some c → c ≡ x
unfolding validate_service_combination
validate-same x h = ground arith

-- The grant is the actor's, unused and in time, and its draft is as it was when it was granted.
abbrev pub IsConfirmed : AgentActionGrant → AgentShipmentDraft → CurrentUser → ℕ → Type 0
IsConfirmed g d actor now =
    (g.grant_owner ≡ actor.user_id)
    × (g.grant_consumed_at ≡ none)
    × (now < g.grant_expires_at)
    × (d.revision ≡ g.grant_revision)
    × (d.bound_quote ≡ some g.grant_quote)
    × (is_ready d.draft_status ≡ true)

redeem-Returned :
    (hash : ShipmentDraft → ℕ) (g : AgentActionGrant) (actor : CurrentUser) (s : Session)
    {c : ShipmentDraft} {t : Session}
    → redeem hash g actor s ≡ (ok c, t)
    → (d : AgentShipmentDraft) × (find_draft g.grant_draft s.drafts ≡ some d)
      × IsConfirmed g d actor s.now
      × (c ≡ g.command_snapshot)
      × (t ≡ record s {
        drafts = put_draft (ordered d) s.drafts;
        grants = put_grant (used g s.now) s.grants;
      })
unfolding redeem
redeem-Returned hash g actor s {c} {t} e =
    elim (Option-cases (at_revision g.grant_revision (find_draft g.grant_draft s.drafts))) [
      | inl p ↦ absurd (ground (arith, p, e))
      | inr (d, p) ↦
          let (f, r) = at_revision-some g.grant_revision (find_draft g.grant_draft s.drafts) p in
          (
            d,
            f,
            (
              ground (arith, p, e, eq-of_== g.grant_owner actor.user_id),
              ground (arith, p, e),
              ground (arith, p, e),
              r,
              ground (arith, p, e, opt_eq-some d.bound_quote g.grant_quote),
              ground (arith, p, e),
            ),
            validate-same g.command_snapshot (ground (arith, p, e)),
            ground (arith, p, e),
          )
    ]

-- A consumption that returned went through the block with the grant of the id.
consume-redeems :
    (hash : ShipmentDraft → ℕ) (i : ℕ) (actor : CurrentUser) (request_id : Key) (s : Session)
    {c : ShipmentDraft} {t : Session}
    → consume hash i actor request_id s ≡ (ok c, t)
    → (g : AgentActionGrant) × (find_grant i s.grants ≡ some g)
      × (redeem hash g actor s ≡ (ok c, t))
unfolding consume
consume-redeems hash i actor request_id s {c} {t} e = elim (Option-cases (find_grant i s.grants)) [
  | inl p ↦ absurd (ground (arith, p, e))
  | inr (g, p) ↦ (
    g,
    p,
    elim (Result-cases (redeem hash g actor s).0) [
      | inl (a, q) ↦ ground (arith, p, q, e)
      | inr (x, q) ↦ absurd (ground (arith, p, q, e))
    ],
  )
]

-- A consumption that returns was of a grant of the actor, unused and in time, whose draft is still
-- ready, of the grant's revision and with the grant's quote; it returns the command that was
-- granted, and all it changes is that the grant is used and the draft has its shipment.
pub consume-IsConfirmed :
    (hash : ShipmentDraft → ℕ) (i : ℕ) (actor : CurrentUser) (request_id : Key) (s : Session)
    {c : ShipmentDraft} {t : Session}
    → consume hash i actor request_id s ≡ (ok c, t)
    → (g : AgentActionGrant) × (d : AgentShipmentDraft) × (find_grant i s.grants ≡ some g)
      × (find_draft g.grant_draft s.drafts ≡ some d)
      × IsConfirmed g d actor s.now
      × (c ≡ g.command_snapshot)
      × (t ≡ record s {
        drafts = put_draft (ordered d) s.drafts;
        grants = put_grant (used g s.now) s.grants;
      })
consume-IsConfirmed hash i actor request_id s e =
    let (g, f, q) = consume-redeems hash i actor request_id s e in
    let (d, f2, sure, cs, after) = redeem-Returned hash g actor s q in
    (g, d, f, f2, sure, cs, after)

-- The same for the grant and the draft that are known to be there.
module _ (hash : ShipmentDraft → ℕ) (j : ℕ) (actor : CurrentUser) (request_id : Key) (t : Session)
    {h : AgentActionGrant} {d : AgentShipmentDraft} where
  consume-known :
      find_grant j t.grants ≡ some h
      → find_draft h.grant_draft t.drafts ≡ some d
      → {c : ShipmentDraft} {u : Session} → consume hash j actor request_id t ≡ (ok c, u)
      → IsConfirmed h d actor t.now
  consume-known fh fd e =
      let (g, x, f, f2, sure, cs, after) = consume-IsConfirmed hash j actor request_id t e in
      let eg : g ≡ h = cc in let ex : x ≡ d = cc in rw (sym eg, sym ex) sure

  -- No grant is consumed while its draft is not for confirmation or is at another revision.
  pub consume_needs_ready :
      find_grant j t.grants ≡ some h
      → find_draft h.grant_draft t.drafts ≡ some d
      → (is_ready d.draft_status && (d.revision == h.grant_revision)) ≡ false
      → is_ok (consume hash j actor request_id t).0 ≡ false
  consume_needs_ready fh fd n = elim (Result-cases (consume hash j actor request_id t).0) [
    | inr (x, q) ↦ ap is_ok q
    | inl (c, q) ↦
        let (own, unused, time, same, quote, ready) =
          consume-known fh fd (ap (λ r. (r, (consume hash j actor request_id t).1)) q) in
        absurd (ground (arith, ==_self h.grant_revision))
  ]

-- After a grant has been consumed, no grant of the same draft can be consumed, whoever asks: the
-- confirmation of a draft creates one shipment.
pub consume-exhausts :
    (hash : ShipmentDraft → ℕ) (i : ℕ) (actor : CurrentUser) (request_id : Key) (s : Session)
    {c : ShipmentDraft} {t : Session} {g : AgentActionGrant}
    → consume hash i actor request_id s ≡ (ok c, t)
    → find_grant i s.grants ≡ some g
    → (j : ℕ) (other : CurrentUser) (later : Key) {h : AgentActionGrant}
    → find_grant j t.grants ≡ some h
    → h.grant_draft ≡ g.grant_draft
    → is_ok (consume hash j other later t).0 ≡ false
consume-exhausts hash i actor request_id s {c} {t} {g} e fg j other later {h} fh same =
    let (x, d, f, f2, sure, cs, after) = consume-IsConfirmed hash i actor request_id s e in
    let ex : x ≡ g = cc in
    let saved : find_draft h.grant_draft t.drafts ≡ some (ordered d) =
      rw
        (
          same,
          sym (ap (λ (y : AgentActionGrant). y.grant_draft) ex),
          ap (λ (u : Session). u.drafts) after,
        )
        (find_draft-put x.grant_draft d (ordered d) s.drafts f2 refl) in
    consume_needs_ready hash j other later t fh saved refl
