-- ===== src/Agent/Validation/Complete.antt =====
-- A draft that lacks nothing can be quoted (backend/src/yitu/agent/domain/drafts.py).
use Prim.Native.String.{String}
use yitu.Base.{
  length, ltb, ◌==◌, ◌&&◌, ℕ, ◌≡◌, refl, Bool, true, false, ◌||◌, Option, none, some, List, [], ◌∷◌,
  ◌++◌, arith,
}
use yitu.Agent.Drafts.{
  is_missing, missing_fields, missing_if, missing_sender, missing_receiver, no_code, code_fits,
  patch_fits, codes_fit, measures_fit, no_number, no_text,
}
use yitu.Agent.Validation.{quote_request, request_fits}
use yitu.Platform.Errors.{ok}
use yitu.Pricing.Policy.{PricingInput}
use yitu.Shipments.Enums.{PickupMethod, DeliveryMethod}
use yitu.Store.Drafts.{DraftPatch}
use yitu.Store.Session.{Session}

is_missing-append : (xs ys : List String) → is_missing (xs ++ ys) ≡ (is_missing xs || is_missing ys)
is_missing-append [] ys = refl
is_missing-append (x ∷ xs) ys = refl

is_missing-if : (c : Bool) (f : String) → is_missing (missing_if c f) ≡ false → c ≡ false
is_missing-if true f h = absurd (ground arith)
is_missing-if false f h = refl

-- Ten lists in a row are empty when they are together.
none_of-append :
    (a b c d e f g h i j : List String)
    → is_missing (a ++ b ++ c ++ d ++ e ++ f ++ g ++ h ++ i ++ j) ≡ false
    → (is_missing a ≡ false)
      × (is_missing b ≡ false)
      × (is_missing c ≡ false)
      × (is_missing d ≡ false)
      × (is_missing e ≡ false)
      × (is_missing f ≡ false)
      × (is_missing g ≡ false)
      × (is_missing h ≡ false)
none_of-append a b c d e f g h i j empty =
    let k = simp is_missing-append at empty in
    (
      ground (arith, k),
      ground (arith, k),
      ground (arith, k),
      ground (arith, k),
      ground (arith, k),
      ground (arith, k),
      ground (arith, k),
      ground (arith, k),
    )

given_code :
    (o : Option (List ℕ))
    → no_code o ≡ false
    → code_fits o ≡ true
    → (c : List ℕ) × (o ≡ some c) × ((length c == 6) ≡ true)
given_code none h k = absurd (ground arith)
given_code (some c) h k = (c, refl, k)

given_number : (o : Option ℕ) → no_number o ≡ false → (n : ℕ) × (o ≡ some n) × (ltb 0 n ≡ true)
given_number none h = absurd (ground arith)
given_number (some n) h = (n, refl, ground arith)

both : (a b : Bool) → (a && b) ≡ true → (a ≡ true) × (b ≡ true)
both a b h = (ground arith, ground arith)

patch_fits-codes :
    (p : DraftPatch)
    → patch_fits p ≡ true
    → (code_fits p.origin_district ≡ true) × (code_fits p.destination_district ≡ true)
unfolding patch_fits
patch_fits-codes p h =
    let (codes, measures) = both (codes_fit p) (measures_fit p) h in
    both (code_fits p.origin_district) (code_fits p.destination_district) codes

given_pickup :
    (o : Option PickupMethod) (p : DraftPatch)
    → is_missing (missing_sender o p) ≡ false
    → (m : PickupMethod) × (o ≡ some m)
unfolding missing_sender
given_pickup none p h = absurd (ground arith)
given_pickup (some m) p h = (m, refl)

given_delivery :
    (o : Option DeliveryMethod) (p : DraftPatch)
    → is_missing (missing_receiver o p) ≡ false
    → (m : DeliveryMethod) × (o ≡ some m)
unfolding missing_receiver
given_delivery none p h = absurd (ground arith)
given_delivery (some m) p h = (m, refl)

quote_request-given :
    (p : DraftPatch) (s : Session) {r : PricingInput}
    → p.origin_district ≡ some r.origin_district_code
    → p.destination_district ≡ some r.destination_district_code
    → p.pickup_method ≡ some r.pickup_method
    → p.delivery_method ≡ some r.delivery_method
    → p.estimated_weight ≡ some r.actual_weight_grams
    → p.estimated_length ≡ some r.length_cm
    → p.estimated_width ≡ some r.width_cm
    → p.estimated_height ≡ some r.height_cm
    → request_fits r ≡ true
    → quote_request p s ≡ (ok r, s)
unfolding quote_request
quote_request-given p s po pt pp pd pw pl pb ph fits =
    rw (po, pt, pp, pd, pw, pl, pb, ph, fits) refl

-- A draft whose fields are within their bounds and that lacks none has a quote request: no absent key
-- is looked up, and the request is within its bounds. It has the districts, the methods and the
-- measures of the draft.
pub missing_fields_complete :
    (p : DraftPatch) (s : Session)
    → patch_fits p ≡ true
    → is_missing (missing_fields p) ≡ false
    → (r : PricingInput) × (quote_request p s ≡ (ok r, s))
      × (p.origin_district ≡ some r.origin_district_code)
      × (p.destination_district ≡ some r.destination_district_code)
      × (p.pickup_method ≡ some r.pickup_method)
      × (p.delivery_method ≡ some r.delivery_method)
      × (p.estimated_weight ≡ some r.actual_weight_grams)
      × (p.estimated_length ≡ some r.length_cm)
      × (p.estimated_width ≡ some r.width_cm)
      × (p.estimated_height ≡ some r.height_cm)
unfolding missing_fields
missing_fields_complete p s ok_p h =
    let (fo, ft) = patch_fits-codes p ok_p in
    let (a, b, c, d, e, f, g, i) =
      none_of-append (missing_sender p.pickup_method p) (missing_receiver p.delivery_method p)
        (missing_if (no_code p.origin_district) "origin_district_code")
        (missing_if (no_code p.destination_district) "destination_district_code")
        (missing_if (no_number p.estimated_weight) "estimated_weight_grams")
        (missing_if (no_number p.estimated_length) "estimated_length_cm")
        (missing_if (no_number p.estimated_width) "estimated_width_cm")
        (missing_if (no_number p.estimated_height) "estimated_height_cm")
        (missing_if (no_text p.package_category) "package_category")
        (missing_if (no_text p.package_description) "package_description") h in
    let (pickup, pp) = given_pickup p.pickup_method p a in
    let (delivery, pd) = given_delivery p.delivery_method p b in
    let (origin, po, npo) =
      given_code p.origin_district (is_missing-if _ "origin_district_code" c) fo in
    let (destination, pt, npt) =
      given_code p.destination_district (is_missing-if _ "destination_district_code" d) ft in
    let (weight, pw, npw) =
      given_number p.estimated_weight (is_missing-if _ "estimated_weight_grams" e) in
    let (length, pl, npl) =
      given_number p.estimated_length (is_missing-if _ "estimated_length_cm" f) in
    let (width, pb, npb) =
      given_number p.estimated_width (is_missing-if _ "estimated_width_cm" g) in
    let (height, ph, nph) =
      given_number p.estimated_height (is_missing-if _ "estimated_height_cm" i) in
    (
      record {
        origin_district_code = origin;
        destination_district_code = destination;
        pickup_method = pickup;
        delivery_method = delivery;
        actual_weight_grams = weight;
        length_cm = length;
        width_cm = width;
        height_cm = height;
      },
      quote_request-given p s po pt pp pd pw pl pb ph (rw (npo, npt, npw, npl, npb, nph) refl),
      po,
      pt,
      pp,
      pd,
      pw,
      pl,
      pb,
      ph,
    )
