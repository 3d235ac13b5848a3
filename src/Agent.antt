-- ===== src/Agent.antt =====
-- backend/src/yitu/agent/workflow/routes.py and assistant_graph.py: the edges of the assistant's
-- graph. The nodes call a language model and services: what they leave in the state is any state,
-- and the edges read of it these flags.
pub mod Drafts
pub mod Validation
pub mod Grants
pub mod Walks
use yitu.Base.{Bool, true, false, Option, none, some, if◌then◌else◌}

pub record AssistantState : Type 0 where
  pub error : Bool
  pub shipment_requested : Bool
  pub pending_tool_calls : Bool
  pub missing_fields : Bool
  pub confirmed : Bool

pub data Node : Type 0 where
  load_context_node security_gate_node assistant_agent_node assistant_tools_node : Node
  shipment_process_node create_quote_node shipment_confirmation_node : Node
  create_shipment_node finalize_turn_node handle_failure_node : Node

abbrev pub security_result_route : AssistantState → Node
security_result_route state = if state.error then handle_failure_node else assistant_agent_node

abbrev pub assistant_action_route : AssistantState → Node
assistant_action_route state =
    if state.error
    then handle_failure_node
    else if state.shipment_requested
    then shipment_process_node
    else if state.pending_tool_calls
    then assistant_tools_node
    else finalize_turn_node

abbrev pub assistant_tools_route : AssistantState → Node
assistant_tools_route state = if state.error then handle_failure_node else finalize_turn_node

abbrev pub shipment_progress_route : AssistantState → Node
shipment_progress_route state =
    if state.error
    then handle_failure_node
    else if state.missing_fields
    then finalize_turn_node
    else create_quote_node

abbrev pub quote_route : AssistantState → Node
quote_route state = if state.error then handle_failure_node else shipment_confirmation_node

abbrev pub confirmation_route : AssistantState → Node
confirmation_route state =
    if state.error
    then handle_failure_node
    else if state.confirmed
    then create_shipment_node
    else finalize_turn_node

abbrev pub creation_route : AssistantState → Node
creation_route state = if state.error then handle_failure_node else finalize_turn_node

-- `build_assistant_graph`: the node after a node, or `END`.
unfoldable pub next_node : Node → AssistantState → Option Node
next_node load_context_node state = some security_gate_node
next_node security_gate_node state = some (security_result_route state)
next_node assistant_agent_node state = some (assistant_action_route state)
next_node assistant_tools_node state = some (assistant_tools_route state)
next_node shipment_process_node state = some (shipment_progress_route state)
next_node create_quote_node state = some (quote_route state)
next_node shipment_confirmation_node state = some (confirmation_route state)
next_node create_shipment_node state = some (creation_route state)
next_node finalize_turn_node state = none
next_node handle_failure_node state = none
