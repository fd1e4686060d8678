-- ===== src/Queen.antt =====
-- sdk/python/hivekernel_sdk/queen.py: `QueenAgent`, the task dispatcher. Its state is the pool of idle
-- leads, the task history and the worker limit that it passes on. Words has the complexity
-- heuristics, Leads the pool, Strategies the three ways to run a task and Tasks the two entries.
pub mod Words
pub mod Leads
pub mod Strategies
pub mod Tasks
mod Witnesses
use hivekernel.Prelude.{ℕ, List}
use hivekernel.Prelude.Text.{Text}
use hivekernel.Prelude.Dict.{Dict}
use hivekernel.Core.{Session}

-- The three strategies, which the source names by texts.
pub data Complexity : Type 0 where
  simple complex architect : Complexity

pub record IdleLead : Type 0 where
  pub pid : ℕ
  pub idle_since : ℕ

pub record HistoryEntry : Type 0 where
  pub task : Text
  pub complexity : Complexity
  pub exit_code : ℕ
  pub ts : ℕ

pub record Queen : Type 0 where
  pub idle_leads : List IdleLead
  pub task_history : List HistoryEntry
  pub max_workers : Text

abbrev pub QueenState : Type 0 → Type 0
QueenState W = Session Queen W

-- The dictionary that a strategy returns.
pub record Reply : Type 0 where
  pub output : Text
  pub exit_code : ℕ
  pub artifacts : Dict Text
  pub metadata : Dict Text

abbrev pub max_history : ℕ
max_history = 20

abbrev pub lead_idle_timeout : ℕ
lead_idle_timeout = 300
