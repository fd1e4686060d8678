-- ===== src/Assistant.antt =====
-- sdk/python/hivekernel_sdk/assistant.py: `AssistantAgent`. Blocks has the JSON blocks in the answers of
-- the model, Delegations the tasks that were handed to siblings, Siblings the names of the siblings,
-- Actions what is done with the blocks, and Tasks `handle_task` and the handlers of messages.
pub mod Blocks
pub mod Delegations
pub mod Siblings
pub mod Actions
pub mod Tasks
pub mod Messages
mod Witnesses
