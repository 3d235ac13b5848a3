-- ===== src/Agent/Walks.antt =====
-- The turns of the assistant (backend/src/yitu/agent/workflow/assistant_graph.py).
use yitu.Agent.{
  AssistantState, Node, load_context_node, security_gate_node, assistant_agent_node,
  assistant_tools_node, shipment_process_node, create_quote_node, shipment_confirmation_node,
  create_shipment_node, finalize_turn_node, handle_failure_node, next_node,
}
use yitu.Base.{ℕ, suc, ◌+◌, ◌≤◌, ◌≡◌, ◌≢◌, refl, ap, true, false, some, arith}

-- A turn from a node to a node, in so many steps, each under the state that its node has left.
pub data Walk : Node → Node → ℕ → Type 0 where
  here : {a : Node} → Walk a a 0
  step :
      {a b c : Node} {n : ℕ} (state : AssistantState)
      → next_node a state ≡ some b
      → Walk b c n
      → Walk a c (suc n)

-- How many steps a node can still have.
depth : Node → ℕ
depth load_context_node = 7
depth security_gate_node = 6
depth assistant_agent_node = 5
depth assistant_tools_node = 1
depth shipment_process_node = 4
depth create_quote_node = 3
depth shipment_confirmation_node = 2
depth create_shipment_node = 1
depth finalize_turn_node = 0
depth handle_failure_node = 0

depth-next :
    (a b : Node) (state : AssistantState) → next_node a state ≡ some b → suc (depth b) ≤ depth a
unfolding depth next_node
depth-next a b state h = ground arith

Walk-depth : {a b : Node} {n : ℕ} → Walk a b n → n + depth b ≤ depth a
Walk-depth here = omega arith
Walk-depth (step {a} {b} state h w) = omega (arith, depth-next a b state h, Walk-depth w)

-- A turn of the assistant ends: whatever its nodes leave in the state, no walk from the first node
-- takes more than seven steps.
pub turn_ends : {b : Node} {n : ℕ} → Walk load_context_node b n → n ≤ 7
unfolding depth
turn_ends {b} {n} w = omega (arith, Walk-depth w)

create-step :
    (a : Node) (state : AssistantState)
    → next_node a state ≡ some create_shipment_node
    → (a ≡ shipment_confirmation_node) × (state.error ≡ false) × (state.confirmed ≡ true)
unfolding next_node
create-step a state h = (ground arith, ground arith, ground arith)

-- No walk leads back to the creation.
not-back : (b : Node) {n : ℕ} → Walk b create_shipment_node (suc n) → b ≢ create_shipment_node
unfolding depth
not-back b {n} w e = absurd (ground (arith, Walk-depth w))

-- A turn that reaches the creation of a shipment went to it from the confirmation, in its last
-- step, in a state that is confirmed and has no error.
pub created_confirmed :
    {a : Node} {n : ℕ}
    → Walk a create_shipment_node n
    → a ≢ create_shipment_node
    → (state : AssistantState) × (m : ℕ) × (n ≡ suc m)
      × Walk a shipment_confirmation_node m
      × (state.error ≡ false)
      × (state.confirmed ≡ true)
created_confirmed here ne = absurd (ne refl)
created_confirmed (step {a = a} state h here) ne =
    let (p, x, y) = create-step a state h in (state, 0, refl, rw p here, x, y)
created_confirmed (step {b = b} state h (step state' h' w)) ne =
    let (last, m, p, v, x, y) =
      created_confirmed (step state' h' w) (not-back b (step state' h' w)) in
    (last, suc m, ap suc p, step state h v, x, y)
