-- ===== src/Lib.antt =====
-- A verification library for the Python SDK of HiveKernel, sdk/python/hivekernel_sdk.
--
-- An agent of HiveKernel is a process that the kernel starts. It answers tasks and messages, and
-- reaches the kernel and its sibling agents through gRPC calls. Its agents are modelled with what they
-- stand on. A tool agent runs a loop: it sends its memory to a language model, executes the tools that
-- the model asks for, and goes on until the model answers; the memory is compressed when it grows too
-- large, and is kept in the artifact store. The queen receives tasks, assesses how complex they are,
-- and has them done by a worker, by a lead from a pool of idle leads, or by a lead that follows the
-- plan of an architect. A lead, the orchestrator, splits its task into groups of subtasks for a pool
-- of workers. The maid looks for zombies and orphans among the processes. The assistant answers a user
-- and acts on the JSON blocks in the answers of its model: it schedules tasks and delegates them to
-- its siblings, whose results arrive later. All of them share a mailbox, which matches the replies of
-- other agents with the requests.
--
-- * Memory is memory.py, `AgentMemory`. Memory/Storage has `load` and `save`, against an artifact
--   store whose keys may be out of reach.
-- * Llm is llm.py: the model table, the requests, the errors and the counters of `LLMClient`.
-- * Tools is tools.py: `ToolRegistry`, and a tool as a record with its own `execute`.
-- * ToolAgent is tool_agent.py: the registry that `on_init` builds and the system prompt.
--   ToolAgent/Tasks has `handle_task`, and ToolAgent/Messages `handle_message`.
-- * Loop is loop.py: `AgentLoop.run` and `_summarize`. Loop/Overflow has the test of error messages
--   and Loop/Run the loop itself, one function per stage.
-- * Exec has Python statements that change a state and may raise. What was changed before an exception
--   stays changed.
-- * Core is client.py as these agents use it: an interface with one operation for each call, which
--   answers or raises and changes a world of its own. Each call is noted, the newest first. Core/Enums
--   has the tables between the names of the SDK and the numbers of the protocol. Core/Wire has the
--   messages of the protocol, Core/Client `CoreClient` over the generated stub, Core/Client/Fills that
--   it is such an interface, and Core/Syscalls the syscalls of syscall.py.
-- * BuiltinTools is builtin_tools.py, the tools that hand calls of the kernel to the model, with their
--   schemas in BuiltinTools/Catalog.
-- * Queen is queen.py. Queen/Words has the similarity of tasks and the keywords, Queen/Leads the pool
--   and its reaper, Queen/Leads/Race the reaper with other tasks between its awaits, Queen/Strategies
--   the three `_core_handle_*` methods, and Queen/Tasks the assessment, `handle_task` and
--   `_process_message_task`.
-- * Orchestrator is orchestrator.py, the agent behind a lead. Orchestrator/Groups has `_parse_groups`
--   and `_cap_groups`, Orchestrator/Execution the run of a group of subtasks on its worker, and
--   Orchestrator/Tasks the whole of `handle_task`, from the plan to the killing of the workers.
-- * Agent/Mailbox is the mailbox of agent.py, the base class of all agents: `on_message` and
--   `send_and_wait`. A future is an address in a store. Agent/Mailbox/Requests has the events that may
--   befall an agent and the coroutines that wait in it: sends that fail, replies, timers, the coroutine
--   that goes on after its timer, cancellations. Agent/Mailbox/Soundness, Coroutines and Runs are about
--   any sequence of them, Replies, Bystanders and Leaks about one request.
-- * Agent/Stream is `Execute` of agent.py with `SyscallContext` of syscall.py: the reader of the
--   stream, the handler of its task and the writer, each move of which goes up to an `await`.
--   Agent/Stream/Order and Agent/Stream/Ending have the messages that are written,
--   Agent/Stream/Results the syscalls.
--   Agent/Servicer has the short calls of the servicer.
-- * Maid is maid.py: the scan of the process table and its report.
-- * Assistant is assistant.py. Assistant/Blocks has `_extract_json_block`, Assistant/Delegations the
--   results and the timeouts of delegations, Assistant/Siblings the search for an agent by its name,
--   Assistant/Actions the three `_handle_*` methods, Assistant/Tasks `handle_task`, and
--   Assistant/Messages the handlers of messages.
-- * Architect is architect.py, whose plans the queen hands to a lead. A plan is a JSON value, and
--   Architect/Plans says which values are plans.
-- * Worker is worker.py, with the tasks that a worker remembers, and Coder is coder.py, with the
--   extraction of a code block from an answer.
-- * GithubMonitor is github_monitor.py, which reports new commits and keeps its state in an artifact.
-- * Workspace is workspace_tools.py: the check of a path and the tools that read, write and edit
--   files, over an interface of the file system that notes which files are opened.
-- * PowerTools is power_tools.py, the tool that has a task done by workers of its own, and the one
--   that sends a task to another agent.
-- * Dashboard is sdk/python/dashboard/app.py: the state that it keeps of the events of the kernel.
--   Dashboard/Apply has `apply_event`, Dashboard/Tables dictionaries with numbers as keys, Dashboard/Children the counts of children,
--   Dashboard/Lookups what is read off the tree, and Dashboard/Events the sequences of events.
-- * Prelude has lists and tests over native numbers, text, dictionaries and decimal numerals.
--
-- Text is a list of code points, `lower` knows the ASCII letters, and a Python dictionary is an
-- association list in the order of insertion. Numbers are unbounded, as in Python. `int(total / 2.5)`
-- goes through a float in the source and is `2 * total / 5` here. Clock readings are whole seconds.
--
-- What is not in the source is a parameter: the HTTP exchange with the model, the kernel, `json`, the
-- clock, and the tools that a loop runs, which
-- may change the world and, by `ctx.llm`, the client of the loop. The loop over `max_iterations` is recursion on that number. The
-- preflight loop runs on fuel, one more than the token estimate, which never grows and must shrink for
-- the loop to go on. The `while` loop of `_acquire_lead` and the reaper's `for` loop are recursion on
-- the pool.
--
-- The methods of the queen, the maid, the assistant and the orchestrator are modelled as they run
-- without interleaving: another task of the event loop may run at each `await` of the source, and what
-- it changes there is not modelled. The groups of the orchestrator, which `asyncio.gather` starts
-- together, run one after another. Only the mailbox, the stream of a task and the reaper of the leads
-- have their events in other orders. Text holds no lone surrogates, on which `encode` would raise. Latencies, sampling parameters, dialog logs and log lines of the
-- process itself are left out, and so are the texts of the prompts for spawned agents. The server
-- that agent.py and runner.py start, the tools that use subprocesses or the network, and the
-- endpoints of the dashboard are not modelled, nor is the kernel in Go behind the interface.
mod Prelude
pub mod Memory
pub mod Llm
pub mod Tools
pub mod ToolAgent
pub mod Loop
pub mod Exec
pub mod Core
pub mod Agent
pub mod Maid
pub mod Assistant
pub mod GithubMonitor
pub mod Architect
pub mod Worker
pub mod Coder
pub mod Workspace
pub mod BuiltinTools
pub mod PowerTools
pub mod Dashboard
pub mod Queen
pub mod Orchestrator
