-- ===== src/Sla/Pauses/Consistency.antt =====
-- When a stage is paused: exactly while one of its pauses is open
-- (backend/src/yitu/sla/service.py).
use Prim.Native.String.{String}
use yitu.Base.{
  ℕ, ◌≡◌, refl, sym, ap, Bool, true, not, some, List, [], ◌∷◌, ◌++◌, arith, Option, Bool-cases, inl,
  inr,
}
use yitu.Base.Table.{by_key_found, by_key-put_row_self}
use yitu.Platform.Errors.{ok, value_error}
use yitu.Platform.Json.{Key}
use yitu.Sla.Pauses.{
  begin_pause, can_be_paused, source_pause, end_pause, extended, counted, ended, finish_pause,
  has_open_pause, find_open_pause, is_open_pause,
}
use yitu.Store.Cases.{SlaPause}
use yitu.Store.Queries.{find_instance, put_instance, put_pause, find_rule}
use yitu.Store.Rows.{SlaInstance, SlaStatus, running, paused}
use yitu.Store.Session.{Session, raise_if, or_raise}
use yitu.Store.Steps.{after, after_read, or_raise-same}

-- A running stage has no open pause and a paused one has some.
abbrev pub agrees : SlaStatus → Bool → Bool
agrees running open_pause = not open_pause
agrees paused open_pause = open_pause
agrees _ open_pause = true

-- A stage of the table agrees with its pauses.
abbrev pub IsConsistent : ℕ → Session → Type 0
IsConsistent k s =
    (row : SlaInstance)
    → find_instance k s.sla_instances ≡ some row
    → agrees row.sla_status (has_open_pause k s.pauses) ≡ true

pub has_open_pause-snoc :
    (k : ℕ) (p : SlaPause) (ps : List SlaPause)
    → is_open_pause k p ≡ true
    → has_open_pause k (ps ++ p ∷ []) ≡ true
unfolding has_open_pause
has_open_pause-snoc k p [] h = ground arith
has_open_pause-snoc k p (x ∷ ps) h = ground (arith, has_open_pause-snoc k p ps)

pub find_open_pause-has :
    (k : ℕ) (source : String) (i : ℕ) (ps : List SlaPause) {p : SlaPause}
    → find_open_pause k source i ps ≡ some p
    → has_open_pause k ps ≡ true
unfolding find_open_pause has_open_pause
find_open_pause-has k source i [] h = absurd (ground arith)
find_open_pause-has k source i (x ∷ ps) {p} h =
    ground (arith, find_open_pause-has k source i ps {p = p})

put_instance-found :
    (k : ℕ) (r : SlaInstance) (rows : List SlaInstance) {x : SlaInstance}
    → find_instance k rows ≡ some x
    → r.sla_id ≡ k
    → find_instance k (put_instance r rows) ≡ some r
unfolding find_instance put_instance
put_instance-found k r rows f p =
    rw (sym p) (by_key-put_row_self (λ (x : SlaInstance). x.sla_id) r rows (rw (p, f) refl))

pub find_instance-id :
    (k : ℕ) (rows : List SlaInstance) {r : SlaInstance}
    → find_instance k rows ≡ some r
    → r.sla_id ≡ k
unfolding find_instance
find_instance-id k rows h = by_key_found (λ (r : SlaInstance). r.sla_id) k rows h

-- A stage whose row is given anew is found anew.
pub saved-IsConsistent :
    (k : ℕ) (row : SlaInstance) (s t : Session) {x : SlaInstance}
    → find_instance k s.sla_instances ≡ some x
    → row.sla_id ≡ k
    → t.sla_instances ≡ put_instance row s.sla_instances
    → agrees row.sla_status (has_open_pause k t.pauses) ≡ true
    → IsConsistent k t
saved-IsConsistent k row s t f i e a found g =
    let h : find_instance k t.sla_instances ≡ some row =
      rw e (put_instance-found k row s.sla_instances f i) in
    let same : found ≡ row = ground arith in rw same a

pub begin_pause-IsConsistent :
    (k : ℕ) (row : SlaInstance) (reason code : Key) (source : String) (source_id actor_id : ℕ)
    (key : Key) (s : Session) {r : SlaInstance} {t : Session}
    → find_instance k s.sla_instances ≡ some row
    → begin_pause row reason code source source_id actor_id key s ≡ (ok r, t)
    → IsConsistent k t
unfolding begin_pause
begin_pause-IsConsistent k row reason code source source_id actor_id key s {r} {t} f e =
    let i : row.sla_id ≡ k = find_instance-id k s.sla_instances f in
    after (raise_if (not (can_be_paused row.sla_status)) value_error) _ s e λ _ _ e.
      let new = source_pause row reason code source source_id actor_id key s.next_id s.now in
      let held : t.pauses ≡ s.pauses ++ new ∷ [] = ap (λ x. x.1.pauses) (sym e) in
      saved-IsConsistent k (record row { sla_status = paused }) s t f i
        (ap (λ x. x.1.sla_instances) (sym e))
        (rw held (has_open_pause-snoc k new s.pauses (ground (arith, i))))

-- The row that the end of a pause gives is the one that it leaves in the table.
finish_pause-found :
    (k : ℕ) (row : SlaInstance) (p : SlaPause) (key : Option Key) (s : Session) {r : SlaInstance}
    {t : Session}
    → find_instance k s.sla_instances ≡ some row
    → finish_pause row p key s ≡ (ok r, t)
    → (r.sla_id ≡ k) × (r.sla_status ≡ row.sla_status) × (find_instance k t.sla_instances ≡ some r)
unfolding finish_pause
finish_pause-found k row p key s {r} {t} f e =
    let i : row.sla_id ≡ k = find_instance-id k s.sla_instances f in
    let u = record s {
      pauses = put_pause (ended p s.now key) s.pauses;
      sla_instances = put_instance (counted row p s.now) s.sla_instances;
    } in
    let f' = put_instance-found k (counted row p s.now) s.sla_instances f i in
    after_read (or_raise (find_rule row.sla_rule s.sla_rules) value_error) _ u (or_raise-same _ _ u)
      e
      λ rule _ e.
        after_read (or_raise row.promised_delivery_at value_error) _ u (or_raise-same _ _ u) e
          λ promised _ e.
            after_read (or_raise (extended rule promised p.pause_started s.now) value_error) _ u
              (or_raise-same _ _ u) e
              λ later _ e.
                let last = record (counted row p s.now) { promised_delivery_at = some later } in
                let found = put_instance-found k last u.sla_instances f' i in
                (ground (arith, e, i), ground (arith, e), ground (arith, e, found))

-- Whatever the end of a pause finds, the stage that it leaves agrees with the pauses that it leaves.
pub end_pause-IsConsistent :
    (k : ℕ) (row : SlaInstance) (p : SlaPause) (key : Key) (s : Session) {r : SlaInstance}
    {t : Session}
    → find_instance k s.sla_instances ≡ some row
    → agrees row.sla_status true ≡ true
    → end_pause row p key s ≡ (ok r, t)
    → IsConsistent k t
unfolding end_pause
end_pause-IsConsistent k row p key s {r} {t} f a e =
    let j : row.sla_id ≡ k = find_instance-id k s.sla_instances f in
    after (finish_pause row p (some key)) _ s e λ finished g e.
      let u = (finish_pause row p (some key) s).1 in
      let (i, status, f') = finish_pause-found k row p (some key) s f (ap (λ x. (x, u)) g) in
      elim (Bool-cases (has_open_pause row.sla_id u.pauses)) [
        | inl o ↦ λ found h.
            let same : found ≡ finished = ground (arith, e, f') in
            ground (arith, e, same, status, j)
        | inr o ↦
            saved-IsConsistent k (record finished { sla_status = running }) u t f' i
              (ground (arith, e)) (ground (arith, e, j))
      ]
