-- ===== src/Agent/Grants.antt =====
-- backend/src/yitu/agent/domain/grants.py, `GrantService`, and shipment_write_service.py beside it:
-- a confirmation is a grant of one shipment, for five minutes, for one revision of the draft and one
-- quote. The hash of a command, `canonical_json_sha256` of its dump, is a parameter.
pub mod Once
pub mod Revisions
pub mod Revoked
use Prim.Native.String.{String}
use package.text.Mathlib.Text.{◌==◌ as str_eq}
use yitu.Base.{
  ℕ, ◌+◌, ◌*◌, Bool, true, false, not, ◌&&◌, ◌||◌, Option, none, some, [], ◌∷◌, ◌++◌, is_some, leb,
  ◌==◌, opt_eq,
}
use yitu.Agent.Drafts.{own_draft, save_draft}
use yitu.Agent.Validation.{validate, validate_service_combination}
use yitu.Identity.{require_resource_owner}
use yitu.Platform.Audit.{audit_record}
use yitu.Platform.Consumer.{second}
use yitu.Platform.Errors.{
  Error, ok, err, forbidden_resource_owner, agent_grant_not_ready, agent_grant_quote_required,
  agent_grant_not_found, agent_grant_action_invalid, agent_grant_consumed, agent_grant_expired,
  agent_grant_draft_changed, agent_grant_quote_changed, agent_grant_draft_consumed,
  agent_grant_snapshot_invalid, value_error,
}
use yitu.Platform.Json.{Key, lit, ident, ◌⊹◌, str}
use yitu.Shipments.Application
use yitu.Store.Drafts.{
  ShipmentDraft, DraftStatus, AgentShipmentDraft, AgentActionGrant, incomplete, ready_for_quote,
  ready_for_confirmation, shipment_created,
}
use yitu.Store.Queries.{find_draft, find_grant, put_grant}
use yitu.Store.Rows.{CurrentUser, IdempotencyResponse}
use yitu.Store.Session.{Action, new_id, modify, gets, raise, or_raise, raise_if, pure, ◌>>=◌, ◌>>◌}

abbrev pub is_ready : DraftStatus → Bool
is_ready incomplete = false
is_ready ready_for_quote = false
is_ready ready_for_confirmation = true
is_ready shipment_created = false

abbrev pub version_eq : Option String → Option String → Bool
version_eq none none = true
version_eq (some v) (some w) = str_eq v w
version_eq _ _ = false

-- The row of a new grant.
unfoldable pub write_grant :
    ℕ → AgentShipmentDraft → ℕ → String → ShipmentDraft → ℕ → CurrentUser → Action AgentActionGrant
write_grant conversation_id draft quote version command hash actor = do
  grant_id ← new_id
  nonce ← new_id
  now ← gets (λ s. s.now)
  let grant : AgentActionGrant = record {
    grant_row = grant_id;
    grant_conversation = conversation_id;
    grant_owner = actor.user_id;
    grant_action = "CREATE_SHIPMENT";
    grant_draft = draft.draft_row;
    grant_revision = draft.revision;
    grant_quote = quote;
    grant_version = version;
    command_snapshot = command;
    command_hash = hash;
    nonce = nonce;
    grant_expires_at = now + 300 * second;
    grant_consumed_at = none;
    grant_created_at = now;
  }
  modify (λ s. record s { grants = s.grants ++ grant ∷ [] })
  pure grant

unfoldable pub issue : (ShipmentDraft → ℕ) → ℕ → CurrentUser → Action AgentActionGrant
issue hash conversation_id actor = do
  draft ← or_raise (← gets (λ s. own_draft conversation_id actor s.drafts)) agent_grant_not_ready
  raise_if (not (is_ready draft.draft_status)) agent_grant_not_ready
  quote ← or_raise draft.bound_quote agent_grant_quote_required
  version ← or_raise draft.bound_version agent_grant_quote_required
  command ← validate conversation_id actor
  write_grant conversation_id draft quote version command (hash command) actor

-- The draft of a grant, at the revision of the grant.
abbrev pub at_revision : ℕ → Option AgentShipmentDraft → Option AgentShipmentDraft
at_revision revision none = none
at_revision revision (some d) = elim (d.revision == revision) [ true ↦ some d | false ↦ none ]

-- The two rows that a consumption writes.
abbrev pub used : AgentActionGrant → ℕ → AgentActionGrant
used grant now = record grant { grant_consumed_at = some now }

abbrev pub ordered : AgentShipmentDraft → AgentShipmentDraft
ordered draft = record draft { draft_status = shipment_created }

-- The `try` block of `consume`.
unfoldable pub redeem : (ShipmentDraft → ℕ) → AgentActionGrant → CurrentUser → Action ShipmentDraft
redeem hash grant actor = do
  now ← gets (λ s. s.now)
  raise_if (not (grant.grant_owner == actor.user_id)) forbidden_resource_owner
  require_resource_owner grant.grant_owner actor
  raise_if (not (str_eq grant.grant_action "CREATE_SHIPMENT")) agent_grant_action_invalid
  raise_if (is_some grant.grant_consumed_at) agent_grant_consumed
  raise_if (leb grant.grant_expires_at now) agent_grant_expired
  draft ←
      or_raise
        (← gets (λ s. at_revision grant.grant_revision (find_draft grant.grant_draft s.drafts)))
        agent_grant_draft_changed
  raise_if
      (not (opt_eq draft.bound_quote (some grant.grant_quote))
        || not (version_eq draft.bound_version (some grant.grant_version)))
      agent_grant_quote_changed
  raise_if (not (is_ready draft.draft_status)) agent_grant_draft_consumed
  command ← or_raise (validate_service_combination grant.command_snapshot) value_error
  raise_if (not (hash command == grant.command_hash)) agent_grant_snapshot_invalid
  modify (λ s. record s { grants = put_grant (used grant now) s.grants })
  save_draft (ordered draft)
  pure command

-- The code of an `AppError` that the block raises; `none` is an exception of another class.
abbrev pub refusal_code : Error → Option String
refusal_code forbidden_resource_owner = some "FORBIDDEN_RESOURCE_OWNER"
refusal_code agent_grant_action_invalid = some "AGENT_GRANT_ACTION_INVALID"
refusal_code agent_grant_consumed = some "AGENT_GRANT_CONSUMED"
refusal_code agent_grant_expired = some "AGENT_GRANT_EXPIRED"
refusal_code agent_grant_draft_changed = some "AGENT_GRANT_DRAFT_CHANGED"
refusal_code agent_grant_quote_changed = some "AGENT_GRANT_QUOTE_CHANGED"
refusal_code agent_grant_draft_consumed = some "AGENT_GRANT_DRAFT_CONSUMED"
refusal_code agent_grant_snapshot_invalid = some "AGENT_GRANT_SNAPSHOT_INVALID"
refusal_code _ = none

-- `_reject`
unfoldable pub reject : CurrentUser → ℕ → String → Key → Action (Unit {0})
reject actor grant_id code request_id = do
  audit_record (ident actor.user_id) (lit "agent.grant.rejected")
      (lit "agent-grant:" ⊹ ident grant_id) none (some (("code", str (lit code)) ∷ []))
      (some (lit code)) request_id
  pure tt

-- `except AppError as error: await self._reject(…); raise`
abbrev pub or_reject : {A : Type 0} → Action A → (String → Action (Unit {0})) → Action A
or_reject m note s =
    let (r, t) = m s in
    elim r [
      | ok a ↦ (ok a, t)
      | err e ↦ elim (refusal_code e) [ some code ↦ (err e, (note code t).1) | none ↦ (err e, t) ]
    ]

unfoldable pub consume : (ShipmentDraft → ℕ) → ℕ → CurrentUser → Key → Action ShipmentDraft
consume hash grant_id actor request_id = do
  found ← gets (λ s. find_grant grant_id s.grants)
  elim found [
    | none ↦ do
      reject actor grant_id "AGENT_GRANT_NOT_FOUND" request_id
      raise agent_grant_not_found
    | some grant ↦
        or_reject (redeem hash grant actor) (λ code. reject actor grant_id code request_id)
  ]

-- `AgentWriteService.create_shipment`; the idempotency key is that of the grant.
unfoldable pub create_shipment :
    (ShipmentDraft → ℕ) → ℕ → CurrentUser → Key → Action IdempotencyResponse
create_shipment hash grant_id actor request_id = do
  command ← consume hash grant_id actor request_id
  Application.create command actor (lit "agent-grant:" ⊹ ident grant_id) (hash command)
