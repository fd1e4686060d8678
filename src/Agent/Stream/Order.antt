-- ===== src/Agent/Stream/Order.antt =====
-- The order of the messages on the stream of a task.
use hivekernel.Prelude.{
  ℕ, Bool, true, false, ◌≡◌, refl, ◌∙◌, Option, none, some, List, [], ◌∷◌, ◌++◌, map, All,
  All-append, append_assoc, map-append,
}
use hivekernel.Prelude.Text.{Text}
use hivekernel.Prelude.Dict.{lookup}
use hivekernel.Exec.{Result, ok, raised}
use hivekernel.Core.{TaskOutput}
use hivekernel.Agent.Stream.{
  Kind, syscall, update, completed, failed, TaskProgress, Item, item, stop, Answer, Stream,
  new_stream, idle, busy, done, read_task, resolve_at, resolve_syscall, do_syscall, report_progress,
  run_task, write_from, write, Move, reads_task, reads_result, calls, reports, ends, writes, Reach,
  Reach-keeps,
}

abbrev is_last : Kind → Bool
is_last (syscall id call) = false
is_last (update message) = false
is_last (completed output) = true
is_last (failed message) = true

abbrev pub IsPlain : Text → TaskProgress → Type 0
IsPlain id p = (p.task_id ≡ id) × (is_last p.kind ≡ false)

abbrev pub IsTerminal : Text → TaskProgress → Type 0
IsTerminal id p = (p.task_id ≡ id) × (is_last p.kind ≡ true)

-- Where the message that ends the task is: not made, in the queue, written, or written with the writer
-- returned.
pub data IsOrdered (s : Stream) : Type 0 where
  before : s.runner ≡ idle → s.written ≡ [] → s.queue ≡ [] → s.returned ≡ false → IsOrdered s
  during :
      (queued : List TaskProgress)
      → s.runner ≡ busy
      → s.queue ≡ map item queued
      → All (IsPlain s.task_id) s.written
      → All (IsPlain s.task_id) queued
      → s.returned ≡ false
      → IsOrdered s
  ending :
      (queued : List TaskProgress) (last : TaskProgress)
      → s.runner ≡ done
      → s.queue ≡ map item queued ++ (item last ∷ stop ∷ [])
      → All (IsPlain s.task_id) s.written
      → All (IsPlain s.task_id) queued
      → IsTerminal s.task_id last
      → s.returned ≡ false
      → IsOrdered s
  closing :
      (ws : List TaskProgress) (last : TaskProgress)
      → s.runner ≡ done
      → s.queue ≡ stop ∷ []
      → s.written ≡ ws ++ last ∷ []
      → All (IsPlain s.task_id) ws
      → IsTerminal s.task_id last
      → s.returned ≡ false
      → IsOrdered s
  ended :
      (ws : List TaskProgress) (last : TaskProgress)
      → s.runner ≡ done
      → s.queue ≡ []
      → s.written ≡ ws ++ last ∷ []
      → All (IsPlain s.task_id) ws
      → IsTerminal s.task_id last
      → s.returned ≡ true
      → IsOrdered s

single-IsPlain : (id : Text) (x p : TaskProgress) → x ≡ p → IsPlain id x → All (IsPlain id) (p ∷ [])
single-IsPlain id x p e h = rw (← e) (h, tt)

put-IsOrdered :
    (kind : Kind) (s t : Stream)
    → is_last kind ≡ false
    → s.runner ≡ busy
    → t.runner ≡ busy
    → t.task_id ≡ s.task_id
    → t.written ≡ s.written
    → t.returned ≡ s.returned
    → t.queue ≡ s.queue ++ item (record { task_id = s.task_id; kind = kind }) ∷ []
    → IsOrdered s
    → IsOrdered t
put-IsOrdered kind s t p b tb e1 e2 e3 e4 (before h1 h2 h3 h4) = cc
put-IsOrdered kind s t p b tb e1 e2 e3 e4 (during queued h1 h2 h3 h4 h5) =
    let new : TaskProgress = record { task_id = s.task_id; kind = kind } in
    during (queued ++ new ∷ []) tb (e4 ∙ (rw (h2, map-append item queued (new ∷ [])) refl))
      (rw (e1, e2) h3) (rw e1 (All-append (IsPlain s.task_id) queued (new ∷ []) h4 ((refl, p), tt)))
      (e3 ∙ h5)
put-IsOrdered kind s t p b tb e1 e2 e3 e4 (ending queued last h1 h2 h3 h4 h5 h6) = cc
put-IsOrdered kind s t p b tb e1 e2 e3 e4 (closing ws last h1 h2 h3 h4 h5 h6) = cc
put-IsOrdered kind s t p b tb e1 e2 e3 e4 (ended ws last h1 h2 h3 h4 h5 h6) = cc

write_from-IsOrdered :
    (q : List Item) (s : Stream) → s.queue ≡ q → IsOrdered s → IsOrdered (write_from q s)
unfolding write_from
write_from-IsOrdered [] s e h = h
write_from-IsOrdered (item p ∷ q) s e (before h1 h2 h3 h4) = cc
write_from-IsOrdered (item p ∷ q) s e (during [] h1 h2 h3 h4 h5) = cc
write_from-IsOrdered (item p ∷ q) s e (during (x ∷ xs) h1 h2 h3 h4 h5) =
    during xs h1 (cc)
      (All-append (IsPlain s.task_id) s.written (p ∷ []) h3
        (single-IsPlain s.task_id x p (cc) h4.0))
      h4.1 h5
write_from-IsOrdered (item p ∷ q) s e (ending [] last h1 h2 h3 h4 h5 h6) =
    closing s.written last h1 (cc) (cc) h3 h5 h6
write_from-IsOrdered (item p ∷ q) s e (ending (x ∷ xs) last h1 h2 h3 h4 h5 h6) =
    ending xs last h1 (cc)
      (All-append (IsPlain s.task_id) s.written (p ∷ []) h3
        (single-IsPlain s.task_id x p (cc) h4.0))
      h4.1 h5 h6
write_from-IsOrdered (item p ∷ q) s e (closing ws last h1 h2 h3 h4 h5 h6) = cc
write_from-IsOrdered (item p ∷ q) s e (ended ws last h1 h2 h3 h4 h5 h6) = cc
write_from-IsOrdered (stop ∷ q) s e (before h1 h2 h3 h4) = cc
write_from-IsOrdered (stop ∷ q) s e (during [] h1 h2 h3 h4 h5) = cc
write_from-IsOrdered (stop ∷ q) s e (during (x ∷ xs) h1 h2 h3 h4 h5) = cc
write_from-IsOrdered (stop ∷ q) s e (ending [] last h1 h2 h3 h4 h5 h6) = cc
write_from-IsOrdered (stop ∷ q) s e (ending (x ∷ xs) last h1 h2 h3 h4 h5 h6) = cc
write_from-IsOrdered (stop ∷ q) s e (closing ws last h1 h2 h3 h4 h5 h6) =
    ended ws last h1 (cc) h3 h4 h5 refl
write_from-IsOrdered (stop ∷ q) s e (ended ws last h1 h2 h3 h4 h5 h6) = cc

pub write-IsOrdered : (s : Stream) → IsOrdered s → IsOrdered (write s)
unfolding write
write-IsOrdered s h = write_from-IsOrdered s.queue s refl h

end-IsOrdered :
    (r : Result TaskOutput) (s : Stream) → s.runner ≡ busy → IsOrdered s → IsOrdered (run_task r s)
unfolding run_task
end-IsOrdered r s b (before h1 h2 h3 h4) = cc
end-IsOrdered (ok out) s b (during queued h1 h2 h3 h4 h5) =
    let last : TaskProgress = record { task_id = s.task_id; kind = completed out } in
    ending queued last refl
      (rw (h2, append_assoc (map item queued) (item last ∷ []) (stop ∷ [])) refl) h3 h4 (refl, refl)
      h5
end-IsOrdered (raised e) s b (during queued h1 h2 h3 h4 h5) =
    let last : TaskProgress = record { task_id = s.task_id; kind = failed e } in
    ending queued last refl
      (rw (h2, append_assoc (map item queued) (item last ∷ []) (stop ∷ [])) refl) h3 h4 (refl, refl)
      h5
end-IsOrdered r s b (ending queued last h1 h2 h3 h4 h5 h6) = cc
end-IsOrdered r s b (closing ws last h1 h2 h3 h4 h5 h6) = cc
end-IsOrdered r s b (ended ws last h1 h2 h3 h4 h5 h6) = cc

read-IsOrdered :
    (id : Text) (s : Stream) → s.runner ≡ idle → IsOrdered s → IsOrdered (read_task id s)
unfolding read_task
read-IsOrdered id s i (before h1 h2 h3 h4) = during [] refl h3 (rw h2 tt) tt h4
read-IsOrdered id s i (during queued h1 h2 h3 h4 h5) = cc
read-IsOrdered id s i (ending queued last h1 h2 h3 h4 h5 h6) = cc
read-IsOrdered id s i (closing ws last h1 h2 h3 h4 h5 h6) = cc
read-IsOrdered id s i (ended ws last h1 h2 h3 h4 h5 h6) = cc

resolve-IsOrdered :
    (pending : Option ℕ) (a : Answer) (s : Stream)
    → IsOrdered s
    → IsOrdered (resolve_at pending a s)
unfolding resolve_at
resolve-IsOrdered none a s h = h
resolve-IsOrdered (some f) a s (before h1 h2 h3 h4) = before h1 h2 h3 h4
resolve-IsOrdered (some f) a s (during queued h1 h2 h3 h4 h5) = during queued h1 h2 h3 h4 h5
resolve-IsOrdered (some f) a s (ending queued last h1 h2 h3 h4 h5 h6) =
    ending queued last h1 h2 h3 h4 h5 h6
resolve-IsOrdered (some f) a s (closing ws last h1 h2 h3 h4 h5 h6) =
    closing ws last h1 h2 h3 h4 h5 h6
resolve-IsOrdered (some f) a s (ended ws last h1 h2 h3 h4 h5 h6) = ended ws last h1 h2 h3 h4 h5 h6

Move-IsOrdered : (s t : Stream) → Move s t → IsOrdered s → IsOrdered t
unfolding do_syscall report_progress resolve_syscall
Move-IsOrdered s t (reads_task id i) h = read-IsOrdered id s i h
Move-IsOrdered s t (reads_result a r) h = resolve-IsOrdered (lookup a.call_id s.pending) a s h
Move-IsOrdered s t (calls id call b fresh) h =
    put-IsOrdered (syscall id call) s (do_syscall id call s).1 refl b b refl refl refl refl h
Move-IsOrdered s t (reports message b) h =
    put-IsOrdered (update message) s (report_progress message s) refl b b refl refl refl refl h
Move-IsOrdered s t (ends r b) h = end-IsOrdered r s b h
Move-IsOrdered s t (writes r) h = write-IsOrdered s h

new-IsOrdered : IsOrdered new_stream
unfolding new_stream
new-IsOrdered = before refl refl refl refl

pub reach-IsOrdered : (s : Stream) → Reach new_stream s → IsOrdered s
reach-IsOrdered s r = Reach-keeps IsOrdered Move-IsOrdered new-IsOrdered r
