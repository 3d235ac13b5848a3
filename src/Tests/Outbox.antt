-- ===== src/Tests/Outbox.antt =====
-- The consumer of the outbox, at an example.
use yitu.Base.{ℕ, ◌+◌, ◌*◌, ◌≡◌, ◌≤◌, ◌<◌, ◌⊎◌, refl, none, some, [], ◌∷◌, arith}
use yitu.Base.Table.{by_key}
use yitu.Platform.Consumer.{consume_once, second}
use yitu.Platform.Consumer.Failure.{failure_counted}
use yitu.Platform.Errors.{Error, value_error}
use yitu.Platform.Json.{Key, lit, Object}
use yitu.Shipments.Enums.{pending_payment, home_delivery}
use yitu.Store.Queries.{find_outbox}
use yitu.Store.Rows.{OutboxEvent, published, pending, dead}
use yitu.Store.Session.{Session, Action, raise}
use yitu.Tests.Data.{parcel, store}

abbrev some_text : Error → Key
some_text e = lit "error"

abbrev failing : Object → Key → Action (Unit {0})
failing payload key = raise value_error

-- An event that has failed four times.
abbrev notice : OutboxEvent
notice = record {
  outbox_id = 80;
  outbox_type = "notification.requested";
  business_id = lit "shipment:5";
  payload = [];
  outbox_key = lit "k";
  outbox_status = published;
  attempts = 4;
  next_attempt_at = 0;
  outbox_created_at = 0;
  processed_at = none;
  last_error = none;
}

abbrev waiting : Session
waiting = record (store (parcel pending_payment home_delivery) [] [] []) { outbox = notice ∷ [] }

found-notice : find_outbox 80 waiting.outbox ≡ some notice
unfolding find_outbox by_key
found-notice = refl

failure_example :
    let u = (consume_once some_text failing 80 500 waiting).1 in
    (u ≡ record waiting { next_id = u.next_id; outbox = u.outbox; dead_letters = u.dead_letters })
    × (((5 < 5)
          × (u.dead_letters ≡ [])
          × ((next : ℕ) × (1000 + 30 * second ≤ next)
              × (next ≤ 1000 + 1980 * second)
              × (find_outbox 80 u.outbox
                  ≡ some (record notice {
                    outbox_status = pending;
                    attempts = 5;
                    next_attempt_at = next;
                    last_error = some (lit "error");
                  }))))
        ⊎ ((5 ≤ 5)
            × (find_outbox 80 u.outbox
                ≡ some (record notice {
                  outbox_status = dead;
                  attempts = 5;
                  last_error = some (lit "error");
                }))
            × ((letter : ℕ) × (u.dead_letters
                  ≡ record {
                    letter_id = letter;
                    letter_event = 80;
                    letter_type = notice.outbox_type;
                    letter_business = notice.business_id;
                    letter_payload = notice.payload;
                    letter_key = notice.outbox_key;
                    letter_attempts = 5;
                    letter_error = lit "error";
                    failed_at = 1000;
                  }
                    ∷ []))))
failure_example =
    failure_counted some_text failing 80 500 waiting found-notice refl refl (omega arith)
