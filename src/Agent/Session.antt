-- ===== src/Agent/Session.antt =====
-- A session of src/agent.c, from `parse_trigger` to `deliver_answer`. The model, the tools, the
-- plugins and the delivery of messages are a `System` with a state of its own; what the session
-- does in order is a list of events, the newest one first. Memory does not run out.
pub mod State
pub mod Call
pub mod Turn
pub mod Run
pub mod Quiet
pub mod Mailed
pub mod Calls
pub mod Replies
pub mod Sent
pub mod Past
pub mod Requesters
pub mod Asked
pub mod Answered
