-- ===== src/Pricing/Service/Quotes.antt =====
-- What a quote and a reweigh write (backend/src/yitu/pricing/service.py).
use yitu.Base.{ℕ, List, ◌&&◌, ◌≡◌, ap, false, some, not, [], ◌∷◌, ◌++◌, arith, ◌==◌}
use yitu.Base.Table.{by_key-append}
use yitu.Platform.Errors.{ok, quote_not_found, pricing_rule_not_found}
use yitu.Sla.Service.{lift}
use yitu.Store.Steps.{after, after_read, or_raise-Returned, or_raise-same, raise_if-Returned}
use yitu.Pricing.Policy.{QuoteCalculation, calculate_quote}
use yitu.Pricing.Service.{add_quote, reweigh, rule_data, remeasured, Measures, snapshot_of}
use yitu.Identity.{role_is, require_resource_owner}
use yitu.Shipments.Enums.{customer}
use yitu.Store.Catalog.{QuoteSnapshot, PricingRule}
use yitu.Store.Queries.{find_quote, find_pricing_rule}
use yitu.Store.Rows.{CurrentUser}
use yitu.Store.Session.{Session, or_raise}

-- Only the quotes and the supply of ids change.
abbrev pub QuotesOnly : Session → Session → Type 0
QuotesOnly s t = t ≡ record s { next_id = t.next_id; quotes = t.quotes }

pub reweigh-QuotesOnly :
    (k : ℕ) (m : Measures) (actor : CurrentUser) (s : Session)
    → QuotesOnly s (reweigh k m actor s).1
unfolding reweigh add_quote
reweigh-QuotesOnly k m actor s = ground arith

found-append :
    (k : ℕ) (qs rs : List QuoteSnapshot) {q : QuoteSnapshot}
    → find_quote k qs ≡ some q
    → find_quote k (qs ++ rs) ≡ some q
unfolding find_quote
found-append k qs rs f = by_key-append (λ (x : QuoteSnapshot). x.quote_row) k qs rs f

-- The quote of a reweigh: the input of the old quote with the new measures, priced under the rule of
-- the old quote.
abbrev pub IsRepriced : QuoteSnapshot → Measures → PricingRule → QuoteSnapshot → Type 0
IsRepriced old m rule new =
    (new.quote_input ≡ record old.quote_input {
      actual_weight_grams = m.weight;
      length_cm = m.length;
      width_cm = m.width;
      height_cm = m.height;
    })
    × ((c : QuoteCalculation) × (calculate_quote new.quote_input (some (rule_data rule)) ≡ ok c)
        × (new.quote_total_cents ≡ c.total_cents)
        × (new.quote_items ≡ c.items)
        × (new.quote_billable_grams ≡ c.billable_weight_grams))
    × (new.quote_rule ≡ rule.pricing_rule_id)
    × (new.quote_owner ≡ old.quote_owner)
    × (new.source_quote ≡ some old.quote_row)

-- A reweigh that returns gives a quote of the new measures, with all else as the old quote has it,
-- priced under the rule that the old quote names, whatever rules are in force by then; the new quote
-- refers to the old one, is added at the end, and the old one is found as before. The actor is not
-- another customer.
pub reweigh-IsRepriced :
    (k : ℕ) (m : Measures) (actor : CurrentUser) (s : Session) {new : QuoteSnapshot} {t : Session}
    → reweigh k m actor s ≡ (ok new, t)
    → (old : QuoteSnapshot) × (rule : PricingRule) × (find_quote k s.quotes ≡ some old)
      × (find_pricing_rule old.quote_rule s.pricing_rules ≡ some rule)
      × ((role_is actor.role customer && not (old.quote_owner == actor.user_id)) ≡ false)
      × IsRepriced old m rule new
      × (t.quotes ≡ s.quotes ++ new ∷ [])
      × (find_quote k t.quotes ≡ some old)
unfolding reweigh add_quote
reweigh-IsRepriced k m actor s {new} {t} e =
    after_read (or_raise (find_quote k s.quotes) quote_not_found) _ s (or_raise-same _ _ s) e
      λ old p e. after (require_resource_owner old.quote_owner actor) _ s e λ _ own e.
        after_read
          (or_raise (find_pricing_rule old.quote_rule s.pricing_rules) pricing_rule_not_found) _ s
          (or_raise-same _ _ s) e
          λ rule q e.
            after (lift (calculate_quote (remeasured old.quote_input m) (some (rule_data rule)))) _
              s e
              λ c r e.
                let f = or_raise-Returned _ _ s p in
                let priced : calculate_quote (remeasured old.quote_input m) (some (rule_data rule))
                    ≡ ok c =
                  ground (arith, r) in
                let u =
                  (lift (calculate_quote (remeasured old.quote_input m) (some (rule_data rule)))
                    s).1 in
                let same : new
                    ≡ snapshot_of u.next_id old.quote_owner rule (some old.quote_row)
                        (remeasured old.quote_input m) c u.now =
                  ground (arith, e) in
                let rows : t.quotes ≡ s.quotes ++ new ∷ [] = ground (arith, e) in
                (
                  old,
                  rule,
                  f,
                  or_raise-Returned _ _ s q,
                  raise_if-Returned _ _ s own,
                  (
                    ap (λ (x : QuoteSnapshot). x.quote_input) same,
                    (
                      c,
                      rw same priced,
                      ap (λ (x : QuoteSnapshot). x.quote_total_cents) same,
                      ap (λ (x : QuoteSnapshot). x.quote_items) same,
                      ap (λ (x : QuoteSnapshot). x.quote_billable_grams) same,
                    ),
                    ap (λ (x : QuoteSnapshot). x.quote_rule) same,
                    ap (λ (x : QuoteSnapshot). x.quote_owner) same,
                    ap (λ (x : QuoteSnapshot). x.source_quote) same,
                  ),
                  rows,
                  rw rows (found-append k s.quotes (new ∷ []) f),
                )
