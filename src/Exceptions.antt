-- ===== src/Exceptions.antt =====
-- backend/src/yitu/exceptions: the states of an exception case and the service that handles cases.
pub mod StateMachine
pub mod Cases
pub mod Opening
pub mod Handling
pub mod Reassigning
pub mod Resume
pub mod Listing
