-- ===== src/Store/Steps.antt =====
-- The parts of a call that returned: each of its steps returned, in the session that the step before
-- it left.
use yitu.Base.{◌≡◌, refl, sym, ap, inl, inr, Bool, false, Option, none, some, arith}
use yitu.Platform.Errors.{Error, Result, ok, err, Result-cases}
use yitu.Store.Session.{Session, Action, ◌>>=◌, proceed, raise_if, or_raise, transact}

-- A call that returned.
abbrev pub Returned : {A : Type 0} → Action A → Session → A → Session → Type 0
Returned m s a t = m s ≡ (ok a, t)

pub bind-Returned :
    {A B : Type 0} (m : Action A) (f : A → Action B) (s : Session) {b : B} {t : Session}
    → Returned (m >>= f) s b t
    → (a : A) × ((m s).0 ≡ ok a) × Returned (f a) (m s).1 b t
bind-Returned {A} {B} m f s {b} {t} h = go (m s).0 refl h
  where
    go :
        (r : Result A)
        → (m s).0 ≡ r
        → proceed r f (m s).1 ≡ (ok b, t)
        → (a : A) × ((m s).0 ≡ ok a) × Returned (f a) (m s).1 b t
    go (ok a) p k = (a, p, k)
    go (err x) p k = absurd (ground arith)

pub raise_if-Returned :
    (c : Bool) (x : Error) (s : Session) {u : Unit {0}} → (raise_if c x s).0 ≡ ok u → c ≡ false
raise_if-Returned c x s h = ground arith

pub or_raise-Returned :
    {A : Type 0} (o : Option A) (x : Error) (s : Session) {a : A}
    → (or_raise o x s).0 ≡ ok a
    → o ≡ some a
or_raise-Returned none x s h = absurd (ground arith)
or_raise-Returned (some b) x s h = ground arith

-- The same for a step that writes nothing.
pub read-Returned :
    {A B : Type 0} (m : Action A) (f : A → Action B) (s : Session) {b : B} {t : Session}
    → (m s).1 ≡ s
    → Returned (m >>= f) s b t
    → (a : A) × ((m s).0 ≡ ok a) × Returned (f a) s b t
read-Returned m f s k h = let (a, p, q) = bind-Returned m f s h in (a, p, rw (sym k) q)

pub or_raise-same : {A : Type 0} (o : Option A) (x : Error) (s : Session) → (or_raise o x s).1 ≡ s
or_raise-same none x s = refl
or_raise-same (some a) x s = refl

-- The same two as steps of a proof: what follows may use the result of the call by its name alone.
module _ {A B G : Type 0} (m : Action A) (f : A → Action B) (s : Session) {b : B}
    {t : Session} where
  pub after :
      Returned (m >>= f) s b t → ((a : A) → (m s).0 ≡ ok a → Returned (f a) (m s).1 b t → G) → G
  after h k = let (a, p, q) = bind-Returned m f s h in k a p q

  pub after_read :
      (m s).1 ≡ s
      → Returned (m >>= f) s b t
      → ((a : A) → (m s).0 ≡ ok a → Returned (f a) s b t → G)
      → G
  after_read same h k = let (a, p, q) = read-Returned m f s same h in k a p q

-- What holds before a request, and after each call of it that returns, holds after the request.
pub transact-keeps :
    {A : Type 0} (P : Session → Type 0) (m : Action A) (s : Session)
    → P s
    → ((a : A) (t : Session) → Returned m s a t → P t)
    → P (transact m s).1
unfolding transact
transact-keeps P m s before kept = elim (Result-cases (m s).0) [
  | inl (a, e) ↦ rw (e, transact) (kept a (m s).1 (ap (λ r. (r, (m s).1)) e))
  | inr (x, e) ↦ rw (e, transact) before
]
