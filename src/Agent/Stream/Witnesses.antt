-- ===== src/Agent/Stream/Witnesses.antt =====
-- Tests of the stream of a task: a handler makes a syscall, gets its result and returns.
use hivekernel.Prelude.{◌≡◌, refl, [], ◌++◌, true, length}
use hivekernel.Prelude.Text.{text}
use hivekernel.Prelude.Dict.{lookup, insert, remove}
use hivekernel.Exec.{ok}
use hivekernel.Core.{TaskOutput}
use hivekernel.Core.Syscalls.{list_siblings, siblings}
use hivekernel.Agent.Stream.{
  Answer, resolved, Stream, new_stream, read_task, resolve_at, resolve_syscall, do_syscall,
  run_task, write_all, reads_task, reads_result, calls, ends, Reach, start, later,
}
use hivekernel.Agent.Stream.Ending.{EndsOnce, messages, stream_ends}
use hivekernel.Agent.Stream.Results.{IsMatched, reach-IsMatched, call_answered}

abbrev asked : Stream
asked = (do_syscall (text "c1") list_siblings (read_task (text "t") new_stream)).1

abbrev an_answer : Answer
an_answer = record { call_id = text "c1"; result = siblings [] }

abbrev an_output : TaskOutput
an_output = record { exit_code = 0; output = text "done"; artifacts = []; metadata = [] }

abbrev answered : Stream
answered = resolve_syscall an_answer asked

abbrev over : Stream
over = run_task (ok an_output) answered

asked-Reach : Reach new_stream asked
unfolding new_stream read_task lookup
asked-Reach =
    later (later (start refl) (reads_task (text "t") refl))
      (calls (text "c1") list_siblings refl refl)

over-Reach : Reach new_stream over
unfolding new_stream read_task do_syscall resolve_syscall resolve_at insert lookup remove text
over-Reach = later (later asked-Reach (reads_result an_answer refl)) (ends (ok an_output) refl)

test_over : length (messages over.queue) ≡ 2
unfolding new_stream read_task do_syscall resolve_syscall resolve_at insert lookup remove text
    run_task messages
test_over = refl

stream_ends_example :
    ((write_all (length over.queue) over).returned ≡ true)
    × ((write_all (length over.queue) over).written ≡ over.written ++ messages over.queue)
    × EndsOnce over.task_id (write_all (length over.queue) over).written
unfolding run_task
stream_ends_example = stream_ends over over-Reach refl

reach-IsMatched_example : IsMatched asked
reach-IsMatched_example = reach-IsMatched asked asked-Reach

call_answered_example : over.futures 0 ≡ resolved an_answer
unfolding new_stream read_task do_syscall resolve_syscall resolve_at insert lookup remove text
    run_task
call_answered_example =
    call_answered 0 an_answer asked over asked-Reach refl refl
      (later (start refl) (ends (ok an_output) refl))
