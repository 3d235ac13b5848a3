-- ===== src/Agent/Grants/Revisions/Calls.antt =====
-- No call of the drafts and the grants lowers a revision (backend/src/yitu/agent/domain/drafts.py
-- and grants.py).
use Prim.Native.String.{String}
use yitu.Base.{ℕ, ◌≡◌, refl, not, Option, none, some, arith}
use yitu.Agent.Drafts.{
  own_draft, get_or_create, save_draft, update, updated, missing_fields, with_methods, is_missing,
}
use yitu.Platform.Errors.{
  ok, Error, agent_grant_not_ready, agent_grant_quote_required, station_dropoff_disabled,
  station_pickup_disabled, shipment_draft_incomplete, shipment_draft_invalid, value_error,
}
use yitu.Agent.Validation.{
  validate, validate_and_quote, asks_dropoff, asks_collection, check_address, get_owned_address,
  quote_request, quote_key, response_quote, model_validate,
}
use yitu.Platform.Idempotency.{execute}
use yitu.Platform.Json.{Key}
use yitu.Pricing.Policy.{PricingInput}
use yitu.Pricing.Service
use yitu.Pricing.Service.{quote_operation, active_rule, add_quote}
use yitu.Agent.Grants.{consume, ordered, issue, write_grant, is_ready}
use yitu.Agent.Grants.Once.{consume-IsConfirmed}
use yitu.Store.Drafts.{
  ShipmentDraft, Payload, ready_for_confirmation, DraftPatch, AgentShipmentDraft,
}
use yitu.Store.Rows.{CurrentUser}
use yitu.Store.Session.{Session, gets, or_raise, raise_if, ◌>>=◌}
use yitu.Agent.Grants.Revisions.{
  IsFrame, IsPast, Keeps, keeps-bind, keeps-gets, keeps-pure, keeps-raise_if, keeps-or_raise,
  keeps-frame, get_or_create-keeps, save_draft-keeps, past-put, past-found,
}

check_address-IsFrame : (o : Option ℕ) (actor : CurrentUser) → IsFrame (check_address o actor)
unfolding check_address get_owned_address
check_address-IsFrame none actor s = (refl, omega arith)
check_address-IsFrame (some i) actor s = (ground arith, ground arith)

quote_request-IsFrame : (p : DraftPatch) → IsFrame (quote_request p)
unfolding quote_request
quote_request-IsFrame p s = (ground arith, ground arith)

write_grant-IsFrame :
    (c : ℕ) (d : AgentShipmentDraft) (q : ℕ) (v : String) (command : ShipmentDraft) (hash : ℕ)
    (actor : CurrentUser)
    → IsFrame (write_grant c d q v command hash actor)
unfolding write_grant
write_grant-IsFrame c d q v command hash actor s = (refl, omega arith)

quote-IsFrame :
    (r : PricingInput) (actor : CurrentUser) (key : Key) (h : ℕ)
    → IsFrame (Service.quote r actor key h)
unfolding Service.quote execute quote_operation active_rule add_quote
quote-IsFrame r actor key h s = (ground arith, ground arith)

module _ (k n : ℕ) where
  keeps-check_address :
      (o : Option ℕ) (actor : CurrentUser) → Keeps k n (check_address o actor) (λ _. Unit {0})
  keeps-check_address o actor =
      keeps-frame k n (check_address o actor) (check_address-IsFrame o actor)

  pub update-keeps :
      (c : ℕ) (actor : CurrentUser) (patch : DraftPatch)
      → Keeps k n (update c actor patch) (λ _. Unit {0})
  unfolding update
  update-keeps c actor patch =
      keeps-bind k n (get_or_create c actor) _ (get_or_create-keeps k n c actor) λ d past.
        keeps-bind k n (gets (λ s. s.now)) _ (keeps-gets k n (λ s. s.now)) λ now _.
          let new = updated patch d now in
          keeps-bind k n (save_draft new) _ (save_draft-keeps k n new (ground arith))
            λ _ _. keeps-pure k n new

  -- The same for the checks that follow the write of the payload.
  addresses-keep :
      {B : Type 0} (a b : Option ℕ) (actor : CurrentUser) (o : Option B) (x : Error)
      → Keeps k n
          (check_address a actor >>= λ _. check_address b actor >>= λ _. or_raise o x)
          (λ _. Unit {0})
  addresses-keep a b actor o x =
      keeps-bind k n (check_address a actor) _ (keeps-check_address a actor) λ _ _.
        keeps-bind k n (check_address b actor) _ (keeps-check_address b actor)
          λ _ _. keeps-or_raise k n o x

  validate-keeps : (c : ℕ) (actor : CurrentUser) → Keeps k n (validate c actor) (λ _. Unit {0})
  unfolding validate
  validate-keeps c actor =
      keeps-bind k n (get_or_create c actor) _ (get_or_create-keeps k n c actor) λ d past.
        let given = with_methods d.payload.given in
        let payload : Payload = record (d.payload) { given = given } in
        let next : AgentShipmentDraft = record d { payload = payload } in
        keeps-bind k n (raise_if (asks_dropoff given.pickup_method) station_dropoff_disabled) _
          (keeps-raise_if k n (asks_dropoff given.pickup_method) station_dropoff_disabled)
          λ _ _.
            keeps-bind k n
              (raise_if (asks_collection given.delivery_method) station_pickup_disabled) _
              (keeps-raise_if k n (asks_collection given.delivery_method) station_pickup_disabled)
              λ _ _.
                keeps-bind k n
                  (raise_if (is_missing (missing_fields given)) shipment_draft_incomplete) _
                  (keeps-raise_if k n (is_missing (missing_fields given)) shipment_draft_incomplete)
                  λ _ _. keeps-bind k n (save_draft next) _ (save_draft-keeps k n next past) λ _ _.
                    addresses-keep given.sender_address given.receiver_address actor
                      (model_validate payload) shipment_draft_invalid

  quote-keeps :
      (r : PricingInput) (actor : CurrentUser) (key : Key) (h : ℕ)
      → Keeps k n (Service.quote r actor key h) (λ _. Unit {0})
  quote-keeps r actor key h = keeps-frame k n _ (quote-IsFrame r actor key h)

  pub validate_and_quote-keeps :
      (hash : PricingInput → ℕ) (c : ℕ) (actor : CurrentUser)
      → Keeps k n (validate_and_quote hash c actor) (λ _. Unit {0})
  unfolding validate_and_quote
  validate_and_quote-keeps hash c actor =
      keeps-bind k n (validate c actor) _ (validate-keeps c actor) λ command _.
        keeps-bind k n (get_or_create c actor) _ (get_or_create-keeps k n c actor) λ d past.
          keeps-bind k n (quote_request d.payload.given) _
            (keeps-frame k n (quote_request d.payload.given)
              (quote_request-IsFrame d.payload.given))
            λ r _.
              keeps-bind k n (Service.quote r actor (quote_key d) (hash r)) _
                (quote-keeps r actor (quote_key d) (hash r))
                λ response _.
                  keeps-bind k n (or_raise (response_quote response.body) value_error) _
                    (keeps-or_raise k n (response_quote response.body) value_error)
                    λ x _.
                      keeps-bind k n (gets (λ s. s.now)) _ (keeps-gets k n (λ s. s.now)) λ now _.
                        let new : AgentShipmentDraft = record d {
                          payload = record (d.payload) { given_quote = some x.0 };
                          bound_quote = some x.0;
                          bound_version = some x.1;
                          draft_status = ready_for_confirmation;
                          draft_updated_at = now;
                        } in
                        keeps-bind k n (save_draft new) _ (save_draft-keeps k n new past)
                          λ _ _. keeps-pure k n (command, new)

  pub consume-keeps :
      (hash : ShipmentDraft → ℕ) (i : ℕ) (actor : CurrentUser) (request_id : Key) (s : Session)
      {c : ShipmentDraft} {t : Session}
      → consume hash i actor request_id s ≡ (ok c, t)
      → IsPast k n s
      → IsPast k n t
  consume-keeps hash i actor request_id s e (p, q) =
      let (g, d, f, f2, sure, cs, after) = consume-IsConfirmed hash i actor request_id s e in
      rw after (past-put k n (ordered d) s.drafts (past-found k n g.grant_draft s.drafts f2 p) p, q)

  pub issue-keeps :
      (hash : ShipmentDraft → ℕ) (c : ℕ) (actor : CurrentUser)
      → Keeps k n (issue hash c actor) (λ _. Unit {0})
  unfolding issue
  issue-keeps hash c actor =
      keeps-bind k n (gets (λ s. own_draft c actor s.drafts)) _
        (keeps-gets k n (λ s. own_draft c actor s.drafts))
        λ o _.
          keeps-bind k n (or_raise o agent_grant_not_ready) _
            (keeps-or_raise k n o agent_grant_not_ready)
            λ d _.
              keeps-bind k n (raise_if (not (is_ready d.draft_status)) agent_grant_not_ready) _
                (keeps-raise_if k n (not (is_ready d.draft_status)) agent_grant_not_ready)
                λ _ _.
                  keeps-bind k n (or_raise d.bound_quote agent_grant_quote_required) _
                    (keeps-or_raise k n d.bound_quote agent_grant_quote_required)
                    λ q _.
                      keeps-bind k n (or_raise d.bound_version agent_grant_quote_required) _
                        (keeps-or_raise k n d.bound_version agent_grant_quote_required)
                        λ v _.
                          keeps-bind k n (validate c actor) _ (validate-keeps c actor) λ command _.
                            keeps-frame k n (write_grant c d q v command (hash command) actor)
                              (write_grant-IsFrame c d q v command (hash command) actor)
