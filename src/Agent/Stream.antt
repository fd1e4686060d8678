-- ===== src/Agent/Stream.antt =====
-- sdk/python/hivekernel_sdk/agent.py: `Execute` of the servicer, the stream that carries a task, with the
-- `SyscallContext` of syscall.py. The reader, the handler of the task and the writer run concurrently: each
-- of their steps up to an `await` is a move. A stream carries one task.
pub mod Order
pub mod Ending
pub mod Results
mod Witnesses
use hivekernel.Prelude.{
  ℕ, zero, suc, ◌+◌, Bool, true, false, ◌≡◌, sym, subst, Option, none, some, List, [], ◌∷◌, ◌++◌,
  ◌==◌, if◌then◌else◌,
}
use hivekernel.Prelude.Text.{Text}
use hivekernel.Prelude.Dict.{Dict, lookup, insert, remove}
use hivekernel.Exec.{Result, ok, raised}
use hivekernel.Core.{TaskOutput}
use hivekernel.Core.Syscalls.{SystemCall, SyscallResult}

-- The `type` of a `TaskProgress`, with the fields that go with it.
pub data Kind : Type 0 where
  syscall : (call_id : Text) → SystemCall → Kind
  update : (message : Text) → Kind
  completed : TaskOutput → Kind
  failed : (message : Text) → Kind

pub record TaskProgress : Type 0 where
  pub task_id : Text
  pub kind : Kind

-- What stands in `out_queue`: a message, or the `None` that stops the writer.
pub data Item : Type 0 where
  item : TaskProgress → Item
  stop : Item

-- A `SyscallResult` with its `call_id`.
pub record Answer : Type 0 where
  pub call_id : Text
  pub result : SyscallResult

pub data Future : Type 0 where
  unmade : Future
  waiting : Future
  resolved : Answer → Future

-- `run_task` before the task is received, during `handle_task`, and at its end.
pub data Runner : Type 0 where
  idle : Runner
  busy : Runner
  done : Runner

-- `pending` is that of the context, its futures are addresses in a store, and `written` has what
-- `context.write` was called with. `owner` notes the id of the call that a future was made for.
pub record Stream : Type 0 where
  pub task_id : Text
  pub pending : Dict ℕ
  pub futures : ℕ → Future
  pub allocated : ℕ
  pub owner : ℕ → Text
  pub queue : List Item
  pub written : List TaskProgress
  pub runner : Runner
  pub returned : Bool

unfoldable pub new_stream : Stream
new_stream = record {
  task_id = [];
  pending = [];
  futures = λ f. unmade;
  allocated = 0;
  owner = λ f. [];
  queue = [];
  written = [];
  runner = idle;
  returned = false;
}

abbrev pub update_at : {A : Type 0} → ℕ → A → (ℕ → A) → ℕ → A
update_at f a store g = if g == f then a else store g

abbrev pub put : Kind → Stream → Stream
put kind s = record s { queue = s.queue ++ item (record { task_id = s.task_id; kind = kind }) ∷ [] }

-- `stream_reader` at a task, which wakes `run_task`.
unfoldable pub read_task : Text → Stream → Stream
read_task id s = record s { task_id = id; runner = busy }

-- `if not fut.done(): fut.set_result(result)`
unfoldable pub set_result : Answer → Future → Future
set_result a unmade = unmade
set_result a waiting = resolved a
set_result a (resolved b) = resolved b

resolve_at : Option ℕ → Answer → Stream → Stream
unfolding set_result
resolve_at none a s = s
resolve_at (some f) a s = record s {
  pending = remove a.call_id s.pending;
  futures = update_at f (set_result a (s.futures f)) s.futures;
}

-- `stream_reader` at a result. Before the task there is no context, and nothing is pending.
unfoldable pub resolve_syscall : Answer → Stream → Stream
unfolding resolve_at
resolve_syscall a s = resolve_at (lookup a.call_id s.pending) a s

-- `_do_syscall` up to `await fut`, with the address of the future.
unfoldable pub do_syscall : (call_id : Text) → SystemCall → Stream → ℕ × Stream
do_syscall id call s = (
  s.allocated,
  put (syscall id call) (record s {
    pending = insert id s.allocated s.pending;
    futures = update_at s.allocated waiting s.futures;
    allocated = s.allocated + 1;
    owner = update_at s.allocated id s.owner;
  }),
)

unfoldable pub report_progress : (message : Text) → Stream → Stream
report_progress message s = put (update message) s

abbrev pub kind_of : Result TaskOutput → Kind
kind_of (ok output) = completed output
kind_of (raised e) = failed e

-- `run_task` once `handle_task` has returned or raised.
unfoldable pub run_task : Result TaskOutput → Stream → Stream
run_task r s =
    let s' = put (kind_of r) s in record s' { queue = s'.queue ++ stop ∷ []; runner = done }

write_from : List Item → Stream → Stream
write_from [] s = s
write_from (item p ∷ q) s = record s { queue = q; written = s.written ++ p ∷ [] }
write_from (stop ∷ q) s = record s { queue = q; returned = true }

-- One turn of `stream_writer`, which waits where the queue is empty.
unfoldable pub write : Stream → Stream
unfolding write_from
write s = write_from s.queue s

-- The writer when nothing else moves.
unfoldable pub write_all : ℕ → Stream → Stream
write_all zero s = s
write_all (suc n) s = write_all n (write s)

-- What may happen next. The ids of calls are fresh, and the reader is cancelled when the writer has
-- returned.
pub data Move (s : Stream) : Stream → Type 0 where
  reads_task : (id : Text) → s.runner ≡ idle → Move s (read_task id s)
  reads_result : (a : Answer) → s.returned ≡ false → Move s (resolve_syscall a s)
  calls :
      (id : Text) (call : SystemCall)
      → s.runner ≡ busy
      → lookup id s.pending ≡ none
      → Move s (do_syscall id call s).1
  reports : (message : Text) → s.runner ≡ busy → Move s (report_progress message s)
  ends : (r : Result TaskOutput) → s.runner ≡ busy → Move s (run_task r s)
  writes : s.returned ≡ false → Move s (write s)

pub data Reach (s : Stream) : Stream → Type 0 where
  start : {t : Stream} → t ≡ s → Reach s t
  later : {t u : Stream} → Reach s t → Move t u → Reach s u

pub Reach-keeps :
    (P : Stream → Type 0) {s t : Stream}
    → ((u v : Stream) → Move u v → P u → P v)
    → P s
    → Reach s t
    → P t
Reach-keeps P keeps h (start e) = subst P (sym e) h
Reach-keeps P keeps h (later {t} {u} r m) = keeps t u m (Reach-keeps P keeps h r)
