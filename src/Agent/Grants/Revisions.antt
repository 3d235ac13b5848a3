-- ===== src/Agent/Grants/Revisions.antt =====
-- Calls that lower no revision of a draft (backend/src/yitu/agent/domain/drafts.py).
pub mod Calls
use Prim.Native.String.{String}
use yitu.Base.{
  ℕ, ◌≤◌, ◌<◌, ◌≡◌, refl, sym, ap, Bool, true, false, not, ◌&&◌, ◌||◌, Option, none, some, List, [],
  ◌∷◌, ◌++◌, all_of, leb, ◌==◌, inl, inr, arith, Option-cases, ◌+◌, Bool-cases,
}
use yitu.Agent.Drafts.{
  own_draft, is_own, get_or_create, new_draft, save_draft, update, updated, merged, missing_fields,
  with_methods, is_missing,
}
use yitu.Platform.Errors.{
  Result, ok, err, Result-cases, Error, agent_grant_not_ready, agent_grant_quote_required,
  station_dropoff_disabled, station_pickup_disabled, shipment_draft_incomplete,
  shipment_draft_invalid, value_error,
}
use yitu.Agent.Validation.{
  validate, validate_and_quote, asks_dropoff, asks_collection, check_address, get_owned_address,
  quote_request, quote_key, response_quote, model_validate,
}
use yitu.Platform.Idempotency.{execute}
use yitu.Platform.Json.{Key}
use yitu.Pricing.Policy.{PricingInput}
use yitu.Pricing.Service
use yitu.Pricing.Service.{quote_operation, active_rule, add_quote}
use yitu.Agent.Grants.{consume, ordered, issue, write_grant, is_ready}
use yitu.Agent.Grants.Once.{consume-IsConfirmed}
use yitu.Store.Drafts.{
  ShipmentDraft, Payload, ready_for_confirmation, DraftPatch, AgentShipmentDraft,
}
use yitu.Store.Queries.{find_draft, put_draft}
use yitu.Base.Table.{by_key, put_row}
use yitu.Store.Rows.{CurrentUser}
use yitu.Store.Session.{Session, Action, pure, gets, or_raise, raise_if, ◌>>=◌}

ok-inj : {A : Type 0} {a b : A} → ok a ≡ ok b → a ≡ b
ok-inj h = cc

-- Neither the drafts nor the ids change.
abbrev pub IsFrame : {A : Type 0} → Action A → Type 0
IsFrame m = (s : Session) → ((m s).1.drafts ≡ s.drafts) × (s.next_id ≤ (m s).1.next_id)

or_raise-IsFrame : {A : Type 0} (o : Option A) (x : Error) → IsFrame (or_raise o x)
or_raise-IsFrame none x s = (refl, omega arith)
or_raise-IsFrame (some a) x s = (refl, omega arith)

-- The row is of another draft, or has at least the revision.
abbrev pub is_past : ℕ → ℕ → AgentShipmentDraft → Bool
is_past k n d = not (d.draft_row == k) || leb n d.revision

-- Every row of the draft has at least the revision, and the id of the draft was given before.
abbrev pub IsPast : ℕ → ℕ → Session → Type 0
IsPast k n s = (all_of (is_past k n) s.drafts ≡ true) × (k < s.next_id)

frame_lt : (a b c : ℕ) → a < b → b ≤ c → a < c
frame_lt a b c h i = omega arith

-- A call that keeps the revisions, and what holds of its result.
pub record Keeps {A : Type 0} (k n : ℕ) (m : Action A) (Q : A → Type 0) : Type 0 where
  pub kept : (s : Session) → IsPast k n s → IsPast k n (m s).1 × ((a : A) → (m s).0 ≡ ok a → Q a)

module _ (k n : ℕ) where
  pub past-put :
      (d : AgentShipmentDraft) (xs : List AgentShipmentDraft)
      → is_past k n d ≡ true
      → all_of (is_past k n) xs ≡ true
      → all_of (is_past k n) (put_draft d xs) ≡ true
  unfolding put_draft put_row
  past-put d [] p h = refl
  past-put d (x ∷ xs) p h = ground (arith, past-put d xs)

  -- The rows of the draft itself are all written.
  pub past-put_self :
      (d : AgentShipmentDraft) (xs : List AgentShipmentDraft)
      → d.draft_row ≡ k
      → is_past k n d ≡ true
      → all_of (is_past k n) (put_draft d xs) ≡ true
  unfolding put_draft put_row
  past-put_self d [] e p = refl
  past-put_self d (x ∷ xs) e p = ground (arith, past-put_self d xs)

  past-snoc :
      (d : AgentShipmentDraft) (xs : List AgentShipmentDraft)
      → is_past k n d ≡ true
      → all_of (is_past k n) xs ≡ true
      → all_of (is_past k n) (xs ++ d ∷ []) ≡ true
  past-snoc d [] p h = ground arith
  past-snoc d (x ∷ xs) p h = ground (arith, past-snoc d xs)

  past-own :
      (c : ℕ) (actor : CurrentUser) (xs : List AgentShipmentDraft) {d : AgentShipmentDraft}
      → own_draft c actor xs ≡ some d
      → all_of (is_past k n) xs ≡ true
      → is_past k n d ≡ true
  unfolding own_draft
  past-own c actor [] f h = absurd (ground arith)
  past-own c actor (x ∷ xs) {d} f h = ground (arith, past-own c actor xs {d = d})

  pub past-found :
      (i : ℕ) (xs : List AgentShipmentDraft) {d : AgentShipmentDraft}
      → find_draft i xs ≡ some d
      → all_of (is_past k n) xs ≡ true
      → is_past k n d ≡ true
  unfolding find_draft by_key
  past-found i [] f h = absurd (ground arith)
  past-found i (x ∷ xs) {d} f h = ground (arith, past-found i xs {d = d})

  pub keeps-bind :
      {A B : Type 0} {Q : A → Type 0} {R : B → Type 0} (m : Action A) (f : A → Action B)
      → Keeps k n m Q
      → ((a : A) → Q a → Keeps k n (f a) R)
      → Keeps k n (m >>= f) R
  keeps-bind {A} {B} {Q} {R} m f h g = record { kept = λ s p. run s p (m s).0 refl }
    where
      run :
          (s : Session)
          → IsPast k n s
          → (r : Result A) → (m s).0 ≡ r
          → IsPast k n ((m >>= f) s).1 × ((b : B) → ((m >>= f) s).0 ≡ ok b → R b)
      run s p (ok a) e = rw e ((g a ((h.kept s p).1 a e)).kept (m s).1 (h.kept s p).0)
      run s p (err x) e = rw e ((h.kept s p).0, λ b q. absurd (ground arith))

  -- A call that writes neither a draft nor an id.
  pub keeps-frame : {A : Type 0} (m : Action A) → IsFrame m → Keeps k n m (λ _. Unit {0})
  keeps-frame m f = record {
    kept = λ s p. let (d, i) = f s in ((rw d p.0, frame_lt k s.next_id _ p.1 i), λ a e. tt);
  }

  pub get_or_create-keeps :
      (c : ℕ) (actor : CurrentUser) → Keeps k n (get_or_create c actor) (λ d. is_past k n d ≡ true)
  unfolding get_or_create
  get_or_create-keeps c actor = record {
    kept = λ s p.
        let (p, q) = p in
        elim (Option-cases (own_draft c actor s.drafts)) [
          | inl e ↦
              let d = new_draft s.next_id c actor.user_id s.now in
              let past : is_past k n d ≡ true = ground arith in
              rw e ((past-snoc d s.drafts past p, omega arith), λ a x. rw (sym (ok-inj x)) past)
          | inr (d, e) ↦ rw e ((p, q), λ a x. rw (sym (ok-inj x)) (past-own c actor s.drafts e p))
        ];
  }

  pub save_draft-keeps :
      (d : AgentShipmentDraft) → is_past k n d ≡ true → Keeps k n (save_draft d) (λ _. Unit {0})
  save_draft-keeps d h = record { kept = λ s p. ((past-put d s.drafts h p.0, p.1), λ a e. tt) }

  pub keeps-raise_if : (c : Bool) (x : Error) → Keeps k n (raise_if c x) (λ _. Unit {0})
  keeps-raise_if c x = keeps-frame (raise_if c x) (λ s. (refl, omega arith))

  pub keeps-or_raise :
      {A : Type 0} (o : Option A) (x : Error) → Keeps k n (or_raise o x) (λ _. Unit {0})
  keeps-or_raise o x = keeps-frame (or_raise o x) (or_raise-IsFrame o x)

  pub keeps-gets : {A : Type 0} (g : Session → A) → Keeps k n (gets g) (λ _. Unit {0})
  keeps-gets g = keeps-frame (gets g) (λ s. (refl, omega arith))

  pub keeps-pure : {A : Type 0} (a : A) → Keeps k n (pure a) (λ _. Unit {0})
  keeps-pure a = keeps-frame (pure a) (λ s. (refl, omega arith))
