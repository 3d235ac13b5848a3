-- ===== src/Sla/Pauses/Invariant.antt =====
-- The operations on the pauses keep a stage in agreement with them
-- (backend/src/yitu/sla/service.py).
use Prim.Native.String.{String}
use yitu.Base.{ℕ, ◌≡◌, some, [], ◌∷◌, ◌++◌, arith, Option-cases, Bool-cases, inl, inr}
use yitu.Platform.Errors.{ok}
use yitu.Platform.Json.{Key}
use yitu.Sla.Pauses.{
  pause, get_instance, pause_for_source, resume_for_source, find_open_pause, plain_pause,
}
use yitu.Sla.Pauses.Consistency.{
  IsConsistent, begin_pause-IsConsistent, end_pause-IsConsistent, saved-IsConsistent,
  find_open_pause-has, has_open_pause-snoc, find_instance-id,
}
use yitu.Sla.Service.{status_is}
use yitu.Store.Queries.{find_instance}
use yitu.Store.Rows.{SlaInstance, paused}
use yitu.Store.Session.{Session, transact}
use yitu.Store.Steps.{after_read, or_raise-Returned, transact-keeps}

get_instance-same : (k : ℕ) (s : Session) → (get_instance k s).1 ≡ s
unfolding get_instance
get_instance-same k s = ground arith

get_instance-found :
    (k : ℕ) (s : Session) {row : SlaInstance}
    → (get_instance k s).0 ≡ ok row
    → find_instance k s.sla_instances ≡ some row
unfolding get_instance
get_instance-found k s e = or_raise-Returned _ _ s e

module _ (k : ℕ) (s : Session) where
  pause-IsConsistent :
      (reason : Key) (r : SlaInstance) (t : Session)
      → IsConsistent k s
      → pause k reason s ≡ (ok r, t)
      → IsConsistent k t
  unfolding pause get_instance
  pause-IsConsistent reason r t c e =
      after_read (get_instance k) _ s (get_instance-same k s) e λ row p e.
        let f = get_instance-found k s p in
        let i : row.sla_id ≡ k = find_instance-id k s.sla_instances f in
        elim (Bool-cases (status_is row.sla_status paused)) [
          | inl b ↦ let same : t ≡ s = ground (arith, e) in rw same c
          | inr b ↦
              let new = plain_pause row reason s.next_id s.now in
              let held : t.pauses ≡ s.pauses ++ new ∷ [] = ground (arith, e) in
              saved-IsConsistent k (record row { sla_status = paused }) s t f i (ground (arith, e))
                (rw held (has_open_pause-snoc k new s.pauses (ground (arith, i))))
        ]

  pause_for_source-IsConsistent :
      (reason code : Key) (source : String) (source_id actor_id : ℕ) (key : Key) (r : SlaInstance)
      (t : Session)
      → IsConsistent k s
      → pause_for_source k reason code source source_id actor_id key s ≡ (ok r, t)
      → IsConsistent k t
  unfolding pause_for_source get_instance
  pause_for_source-IsConsistent reason code source source_id actor_id key r t c e =
      after_read (get_instance k) _ s (get_instance-same k s) e λ row p e.
        let f = get_instance-found k s p in
        elim (Option-cases (find_open_pause row.sla_id source source_id s.pauses)) [
          | inr (x, o) ↦ let same : t ≡ s = ground (arith, e) in rw same c
          | inl o ↦
              begin_pause-IsConsistent k row reason code source source_id actor_id key s {r = r}
                {t = t} f (ground (arith, e))
        ]

  resume_for_source-IsConsistent :
      (source : String) (source_id : ℕ) (key : Key) (r : SlaInstance) (t : Session)
      → IsConsistent k s
      → resume_for_source k source source_id key s ≡ (ok r, t)
      → IsConsistent k t
  unfolding resume_for_source get_instance
  resume_for_source-IsConsistent source source_id key r t c e =
      after_read (get_instance k) _ s (get_instance-same k s) e λ row p e.
        let f = get_instance-found k s p in
        let i : row.sla_id ≡ k = find_instance-id k s.sla_instances f in
        elim (Option-cases (find_open_pause row.sla_id source source_id s.pauses)) [
          | inl o ↦ let same : t ≡ s = ground (arith, e) in rw same c
          | inr (x, o) ↦
              let has = find_open_pause-has row.sla_id source source_id s.pauses o in
              end_pause-IsConsistent k row x key s {r = r} {t = t} f
                (ground (arith, c row f, i, has)) (ground (arith, e))
        ]

  -- A request that pauses a stage, pauses it for a source or ends a source's pause keeps this: the
  -- stage has no open pause while it is running, and has one while it is paused.
  pub pauses-IsConsistent :
      (reason code : Key) (source : String) (source_id actor_id : ℕ) (key : Key)
      → IsConsistent k s
      → IsConsistent k (transact (pause k reason) s).1
        × IsConsistent k
            (transact (pause_for_source k reason code source source_id actor_id key) s).1
        × IsConsistent k (transact (resume_for_source k source source_id key) s).1
  pauses-IsConsistent reason code source source_id actor_id key c = (
    transact-keeps (IsConsistent k) (pause k reason) s c (λ r t. pause-IsConsistent reason r t c),
    transact-keeps (IsConsistent k) (pause_for_source k reason code source source_id actor_id key) s
        c (λ r t. pause_for_source-IsConsistent reason code source source_id actor_id key r t c),
    transact-keeps (IsConsistent k) (resume_for_source k source source_id key) s c
        (λ r t. resume_for_source-IsConsistent source source_id key r t c),
  )
