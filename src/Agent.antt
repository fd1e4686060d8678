-- ===== src/Agent.antt =====
-- sdk/python/hivekernel_sdk/agent.py: `HiveAgent`, the base class of all agents. Mailbox has the
-- messages and the requests that wait for a reply, Stream the stream of a task, and Servicer the other
-- calls of the servicer.
pub mod Mailbox
pub mod Stream
pub mod Servicer
mod Witnesses
