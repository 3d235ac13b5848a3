-- ===== src/Shipments/Application/Creation.antt =====
-- What the creation of a shipment writes (backend/src/yitu/shipments/service.py).
use Prim.Native.String.{String}
use yitu.Base.{
  ℕ, ◌≡◌, refl, sym, ap, ◌∙◌, Bool, true, false, not, Option, none, some, [], ◌∷◌, ◌++◌, arith,
  is_some, eq-of_==,
}
use yitu.Platform.Errors.{ok, quote_required, package_required, quote_input_mismatch}
use yitu.Platform.Outbox.{append}
use yitu.Shipments.Application.{
  Declared, declaration, load_address, require_address_owner, owned_quote, quoted_for, station_for,
  is_dropoff, is_collected, write_shipment, create_operation,
}
use yitu.Store.Drafts.{ShipmentDraft}
use yitu.Shipments.Enums.{pending_payment}
use yitu.Stations.{match_station}
use yitu.Store.Catalog.{Address, QuoteSnapshot}
use yitu.Store.Queries.{find_quote}
use yitu.Store.Rows.{CurrentUser, Shipment, IdempotencyResponse}
use yitu.Store.Session.{Session, raise_if, or_raise}
use yitu.Store.Steps.{after, after_read, or_raise-Returned, or_raise-same, raise_if-Returned}

load_address-same : (o : Option ℕ) (s : Session) → (load_address o s).1 ≡ s
unfolding load_address
load_address-same none s = refl
load_address-same (some i) s = ground arith

require_address_owner-same :
    (o : Option Address) (actor : CurrentUser) (s : Session)
    → (require_address_owner o actor s).1 ≡ s
require_address_owner-same none actor s = refl
require_address_owner-same (some a) actor s = refl

owned_quote-same :
    (o : Option ℕ) (actor : CurrentUser) (s : Session) → (owned_quote o actor s).1 ≡ s
unfolding owned_quote
owned_quote-same none actor s = refl
owned_quote-same (some i) actor s = ground arith

owned_quote-found :
    (o : Option ℕ) (actor : CurrentUser) (s : Session) {q : QuoteSnapshot}
    → (owned_quote o actor s).0 ≡ ok q
    → (i : ℕ) × (o ≡ some i) × (find_quote i s.quotes ≡ some q) × (q.quote_owner ≡ actor.user_id)
unfolding owned_quote
owned_quote-found none actor s e = absurd (ground arith)
owned_quote-found (some i) actor s {q} e =
    (i, refl, ground (arith, e), ground (arith, e, eq-of_== q.quote_owner actor.user_id))

station_for-same :
    (b : Bool) (a : Option Address) (service : String) (given : Option ℕ) (s : Session)
    → (station_for b a service given s).1 ≡ s
unfolding station_for match_station
station_for-same true (some a) service given s = ground arith
station_for-same true none service given s = refl
station_for-same false a service given s = refl

write_shipment-adds :
    (draft : ShipmentDraft) (d : Declared) (sender receiver : Option Address)
    (origin destination : Option ℕ) (q : QuoteSnapshot) (actor : CurrentUser) (s : Session)
    {x : Shipment}
    → (write_shipment draft d sender receiver origin destination q actor s).0 ≡ ok x
    → ((write_shipment draft d sender receiver origin destination q actor s).1.shipments
        ≡ s.shipments ++ x ∷ [])
      × (x.status ≡ pending_payment)
      × (x.owner_id ≡ actor.user_id)
      × (x.quote_id ≡ some q.quote_row)
unfolding write_shipment append
write_shipment-adds draft d sender receiver origin destination q actor s e =
    (ground (arith, e), ground (arith, e), ground (arith, e), ground (arith, e))

-- A request that creates a shipment and returns adds one shipment, which waits for its payment,
-- belongs to the actor and is bound to a quote of the actor's that was made for the measures that
-- the draft declares.
pub create_operation-bound :
    (draft : ShipmentDraft) (actor : CurrentUser) (s : Session) {r : IdempotencyResponse}
    {t : Session}
    → create_operation draft actor s ≡ (ok r, t)
    → (x : Shipment) × (t.shipments ≡ s.shipments ++ x ∷ [])
      × (x.status ≡ pending_payment)
      × (x.owner_id ≡ actor.user_id)
      × ((i : ℕ) × (q : QuoteSnapshot) × (d : Declared) × (draft.draft_quote ≡ some i)
          × (find_quote i s.quotes ≡ some q)
          × (q.quote_owner ≡ actor.user_id)
          × (declaration draft ≡ some d)
          × (quoted_for q.quote_input d.sizes ≡ true)
          × (x.quote_id ≡ some q.quote_row))
unfolding create_operation
create_operation-bound draft actor s {r} {t} e =
    after_read (load_address draft.sender_id) _ s (load_address-same _ s) e λ sender _ e.
      after_read (load_address draft.receiver_id) _ s (load_address-same _ s) e λ receiver _ e.
        after_read (require_address_owner sender actor) _ s
          (require_address_owner-same sender actor s) e
          λ _ _ e.
            after_read (require_address_owner receiver actor) _ s
              (require_address_owner-same receiver actor s) e
              λ _ _ e.
                after (raise_if (not (is_some draft.draft_quote)) quote_required) _ s e λ _ _ e.
                  after_read (or_raise (declaration draft) package_required) _ s
                    (or_raise-same _ _ s) e
                    λ d pd e.
                      after_read (owned_quote draft.draft_quote actor) _ s
                        (owned_quote-same _ actor s) e
                        λ q pq e.
                          after
                            (raise_if (not (quoted_for q.quote_input d.sizes)) quote_input_mismatch)
                            _ s e
                            λ _ pm e.
                              after_read
                                (station_for (not (is_dropoff draft.draft_pickup)) sender
                                  "HOME_PICKUP" draft.origin_id)
                                _ s (station_for-same _ sender _ _ s) e
                                λ origin _ e.
                                  after_read
                                    (station_for (not (is_collected draft.draft_delivery)) receiver
                                      "HOME_DELIVERY" draft.destination_id)
                                    _ s (station_for-same _ receiver _ _ s) e
                                    λ destination _ e.
                                      let (i, o, f, own) =
                                        owned_quote-found draft.draft_quote actor s pq in
                                      let m : quoted_for q.quote_input d.sizes ≡ true =
                                        ground (arith, raise_if-Returned _ _ s pm) in
                                      after
                                        (write_shipment draft d sender receiver origin destination q
                                          actor)
                                        _ s e
                                        λ x px e.
                                          let (rows, waits, owner, bound) =
                                            write_shipment-adds draft d sender receiver origin
                                              destination q actor s px in
                                          (
                                            x,
                                            ap (λ y. y.1.shipments) (sym e) ∙ rows,
                                            waits,
                                            owner,
                                            (
                                              i,
                                              q,
                                              d,
                                              o,
                                              f,
                                              own,
                                              or_raise-Returned _ _ s pd,
                                              m,
                                              bound,
                                            ),
                                          )
