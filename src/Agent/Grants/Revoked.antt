-- ===== src/Agent/Grants/Revoked.antt =====
-- A change of a draft revokes the grants of it (backend/src/yitu/agent/domain/drafts.py, `update`,
-- and grants.py, `consume`).
use yitu.Base.{
  ℕ, ◌+◌, ◌≡◌, refl, sym, ap, ◌∙◌, not, ◌||◌, ◌==◌, leb, true, false, none, some, List, [], ◌∷◌,
  arith, ◌≤◌, ◌<◌, inl, inr,
}
use yitu.Agent.Drafts.{own_draft, get_or_create, update, updated}
use yitu.Agent.Grants.{consume, issue}
use yitu.Agent.Grants.Once.{consume-IsConfirmed}
use yitu.Agent.Grants.Revisions.{IsPast, past-put_self, past-found}
use yitu.Agent.Grants.Revisions.Calls.{
  update-keeps, validate_and_quote-keeps, issue-keeps, consume-keeps,
}
use yitu.Agent.Validation.{validate_and_quote}
use yitu.Platform.Errors.{ok, is_ok, Result-cases}
use yitu.Platform.Json.{Key}
use yitu.Pricing.Policy.{PricingInput}
use yitu.Store.Drafts.{ShipmentDraft, DraftPatch, AgentShipmentDraft, AgentActionGrant}
use yitu.Store.Queries.{put_draft, find_grant, find_draft-id}
use yitu.Store.Rows.{CurrentUser}
use yitu.Store.Session.{Session, transact}
use yitu.Store.Steps.{transact-keeps}

-- A row that is past a revision is not the draft at an earlier one.
too_old :
    {G : Type 0} (row revision k r n : ℕ)
    → row ≡ k
    → revision ≡ r
    → r < n
    → (not (row == k) || leb n revision) ≡ true
    → G
too_old row revision k r n id at old past = absurd (ground arith)

-- A request of a customer on a draft, whether it returns or raises; `wait` lets time pass.
pub data DraftRequest : Type 0 where
  edit : ℕ → CurrentUser → DraftPatch → DraftRequest
  quote confirm : ℕ → CurrentUser → DraftRequest
  redeem_grant : ℕ → CurrentUser → Key → DraftRequest
  wait : ℕ → DraftRequest

module _ (hash : ShipmentDraft → ℕ) (request_hash : PricingInput → ℕ) where
  abbrev pub request : DraftRequest → Session → Session
  request (edit c actor patch) s = (transact (update c actor patch) s).1
  request (quote c actor) s = (transact (validate_and_quote request_hash c actor) s).1
  request (confirm c actor) s = (transact (issue hash c actor) s).1
  request (redeem_grant i actor request_id) s = (transact (consume hash i actor request_id) s).1
  request (wait n) s = record s { now = s.now + n }

  abbrev pub requests : List DraftRequest → Session → Session
  requests [] s = s
  requests (r ∷ rs) s = requests rs (request r s)

  module _ (k n : ℕ) where
    request-IsPast : (r : DraftRequest) (s : Session) → IsPast k n s → IsPast k n (request r s)
    request-IsPast (edit c actor patch) s p =
        transact-keeps (IsPast k n) (update c actor patch) s p
          λ a t e. rw (sym (ap (λ x. x.1) e)) (((update-keeps k n c actor patch).kept s p).0)
    request-IsPast (quote c actor) s p =
        transact-keeps (IsPast k n) (validate_and_quote request_hash c actor) s p λ a t e.
          rw (sym (ap (λ x. x.1) e))
            (((validate_and_quote-keeps k n request_hash c actor).kept s p).0)
    request-IsPast (confirm c actor) s p =
        transact-keeps (IsPast k n) (issue hash c actor) s p
          λ a t e. rw (sym (ap (λ x. x.1) e)) (((issue-keeps k n hash c actor).kept s p).0)
    request-IsPast (redeem_grant i actor request_id) s p =
        transact-keeps (IsPast k n) (consume hash i actor request_id) s p
          λ a t e. consume-keeps k n hash i actor request_id s e p
    request-IsPast (wait m) s p = p

    requests-IsPast :
        (rs : List DraftRequest) (s : Session) → IsPast k n s → IsPast k n (requests rs s)
    requests-IsPast [] s p = p
    requests-IsPast (r ∷ rs) s p = requests-IsPast rs (request r s) (request-IsPast r s p)

    -- A grant of an earlier revision is not consumed.
    past-refused :
        (j : ℕ) (other : CurrentUser) (request_id : Key) (t : Session) {h : AgentActionGrant}
        → IsPast k n t
        → find_grant j t.grants ≡ some h
        → h.grant_draft ≡ k
        → h.grant_revision < n
        → is_ok (consume hash j other request_id t).0 ≡ false
    past-refused j other request_id t {h} (p, q) f same old =
        elim (Result-cases (consume hash j other request_id t).0) [
          | inr (x, e) ↦ ap is_ok e
          | inl (c, e) ↦
              let (g, d, fg, fd, (own, unused, time, revision, bound, ready), cs, after) =
                consume-IsConfirmed hash j other request_id t
                  (ap (λ r. (r, (consume hash j other request_id t).1)) e) in
              let eg : g ≡ h = cc in
              let past = past-found k n g.grant_draft t.drafts fd p in
              let id : d.draft_row ≡ k =
                find_draft-id g.grant_draft t.drafts fd
                ∙ ap (λ (x : AgentActionGrant). x.grant_draft) eg
                ∙ same in
              let at : d.revision ≡ h.grant_revision =
                revision ∙ ap (λ (x : AgentActionGrant). x.grant_revision) eg in
              too_old d.draft_row d.revision k h.grant_revision n id at old past
        ]

  update-saves :
      (conversation_id : ℕ) (actor : CurrentUser) (patch : DraftPatch) (s : Session)
      {d : AgentShipmentDraft}
      → own_draft conversation_id actor s.drafts ≡ some d
      → update conversation_id actor patch s ≡ (
        ok (updated patch d s.now),
        record s { drafts = put_draft (updated patch d s.now) s.drafts },
      )
  unfolding update get_or_create
  update-saves conversation_id actor patch s {d} f = ground (arith, f)

  -- An update of the actor's draft returns the draft at the next revision and without its quote. From
  -- then on, whatever updates, quotes, confirmations and consumptions of whatever drafts are
  -- requested, by whomever and however late, no grant of the draft's revision before the update, or of
  -- an earlier one, can be consumed. The id of the draft was given before.
  pub update-revokes :
      (conversation_id : ℕ) (actor : CurrentUser) (patch : DraftPatch) (s : Session)
      {d : AgentShipmentDraft}
      → own_draft conversation_id actor s.drafts ≡ some d
      → d.draft_row < s.next_id
      → ((v : AgentShipmentDraft) × ((update conversation_id actor patch s).0 ≡ ok v)
          × (v.draft_row ≡ d.draft_row)
          × (v.revision ≡ d.revision + 1)
          × (v.bound_quote ≡ none)
          × (v.bound_version ≡ none))
        × ((later : List DraftRequest) (j : ℕ) (other : CurrentUser) (request_id : Key)
              (h : AgentActionGrant)
            → let t = requests later (update conversation_id actor patch s).1 in
              find_grant j t.grants ≡ some h
              → h.grant_draft ≡ d.draft_row
              → h.grant_revision ≤ d.revision
              → is_ok (consume hash j other request_id t).0 ≡ false)
  update-revokes conversation_id actor patch s {d} f given =
      let new = updated patch d s.now in
      let saved = update-saves conversation_id actor patch s f in
      let k = d.draft_row in
      let n = d.revision + 1 in
      let past : IsPast k n (update conversation_id actor patch s).1 =
        rw saved (past-put_self k n new s.drafts refl (ground arith), given) in
      (
        (new, ap (λ r. r.0) saved, refl, refl, refl, refl),
        λ later j other request_id h g same old.
            past-refused k n j other request_id
              (requests later (update conversation_id actor patch s).1)
              (requests-IsPast k n later (update conversation_id actor patch s).1 past) g same
              (omega arith),
      )
