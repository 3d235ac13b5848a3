-- ===== src/Exceptions/StateMachine/Paths.antt =====
-- What holds of sequences of case actions (backend/src/yitu/exceptions/state_machine.py).
use mathlib.Core.List.{Memᴰ}
use yitu.Base.{◌≡◌, refl, sym, ◌⊎◌, inl, inr, Bool, true, false, List, [], ◌∷◌, arith}
use yitu.Platform.Errors.{Result, ok, ◌>>=◌, >>=-eq-ok}
use yitu.Shipments.Enums.{customer, courier, station_operator, operations_admin}
use yitu.Exceptions.StateMachine.{
  ExceptionType, waiting_for_supplement, ExceptionStatus, opened, assigned, processing,
  waiting_for_customer, resolved, closed, CaseAction, assign, start_processing, resolve, close,
  transition, reportable,
}

-- A sequence of actions, each applied to the status that the one before it left.
unfoldable pub apply_all : ExceptionStatus → List CaseAction → Result ExceptionStatus
apply_all s [] = ok s
apply_all s (a ∷ as_) = transition s a >>= λ u. apply_all u as_

module _ (before : ExceptionStatus → Bool) (gate : CaseAction)
    (only : (s : ExceptionStatus) (a : CaseAction) (u : ExceptionStatus)
      → before s ≡ true
      → transition s a ≡ ok u
      → (a ≡ gate) ⊎ (before u ≡ true)) where
  gate-mem :
      (s : ExceptionStatus) (acts : List CaseAction) {u : ExceptionStatus}
      → before s ≡ true
      → before u ≡ false
      → apply_all s acts ≡ ok u
      → Memᴰ gate acts
  unfolding apply_all
  gate-mem s [] b a h = absurd (ground arith)
  gate-mem s (act ∷ acts) b a h =
      let (v, e, r) = >>=-eq-ok (transition s act) (λ u. apply_all u acts) h in
      elim (only s act v b e) [
        | inl p ↦ Memᴰ.head (sym p)
        | inr q ↦ Memᴰ.tail (gate-mem v acts q a r)
      ]

abbrev before_assign : ExceptionStatus → Bool
before_assign opened = true
before_assign _ = false

abbrev before_processing : ExceptionStatus → Bool
before_processing opened = true
before_processing assigned = true
before_processing _ = false

abbrev before_resolved : ExceptionStatus → Bool
before_resolved resolved = false
before_resolved closed = false
before_resolved _ = true

assign_gate :
    (s : ExceptionStatus) (a : CaseAction) (u : ExceptionStatus)
    → before_assign s ≡ true
    → transition s a ≡ ok u
    → (a ≡ assign) ⊎ (before_assign u ≡ true)
unfolding transition
assign_gate s a u b h = ground arith

processing_gate :
    (s : ExceptionStatus) (a : CaseAction) (u : ExceptionStatus)
    → before_processing s ≡ true
    → transition s a ≡ ok u
    → (a ≡ start_processing) ⊎ (before_processing u ≡ true)
unfolding transition
processing_gate s a u b h = ground arith

resolved_gate :
    (s : ExceptionStatus) (a : CaseAction) (u : ExceptionStatus)
    → before_resolved s ≡ true
    → transition s a ≡ ok u
    → (a ≡ resolve) ⊎ (before_resolved u ≡ true)
unfolding transition
resolved_gate s a u b h = ground arith

-- Every accepted sequence that brings a new case to `closed` has it assigned, processed and
-- resolved on the way.
pub closed_was_resolved :
    (acts : List CaseAction)
    → apply_all opened acts ≡ ok closed
    → Memᴰ assign acts × Memᴰ start_processing acts × Memᴰ resolve acts
closed_was_resolved acts h = (
  gate-mem before_assign assign assign_gate opened acts refl refl h,
  gate-mem before_processing start_processing processing_gate opened acts refl refl h,
  gate-mem before_resolved resolve resolved_gate opened acts refl refl h,
)

abbrev way_to_close : ExceptionStatus → List CaseAction
way_to_close opened = assign ∷ start_processing ∷ resolve ∷ close ∷ []
way_to_close assigned = start_processing ∷ resolve ∷ close ∷ []
way_to_close processing = resolve ∷ close ∷ []
way_to_close waiting_for_customer = resolve ∷ close ∷ []
way_to_close resolved = close ∷ []
way_to_close closed = []

-- From every status some accepted sequence of actions closes the case.
pub case_closes : (s : ExceptionStatus) → (acts : List CaseAction) × (apply_all s acts ≡ ok closed)
unfolding apply_all transition
case_closes s = (way_to_close s, ground arith)

-- Whatever a customer may report, a courier may; whatever a courier may, a station operator may;
-- whatever a station operator may, the operations administration may, who alone reports a case that
-- waits for a supplement.
pub reportable_widens :
    (t : ExceptionType)
    → (reportable customer t ≡ true → reportable courier t ≡ true)
      × (reportable courier t ≡ true → reportable station_operator t ≡ true)
      × (reportable station_operator t ≡ true → reportable operations_admin t ≡ true)
      × (reportable station_operator t ≡ false → t ≡ waiting_for_supplement)
unfolding reportable
reportable_widens t = (λ h. ground arith, λ h. ground arith, λ h. ground arith, λ h. ground arith)
