-- ===== src/Agent/Stream/Results.antt =====
-- The results of syscalls on the stream of a task, and the calls that wait for them.
use hivekernel.Prelude.{ℕ, ◌<◌, ◌≡◌, refl, ap, ◌∙◌, Option, none, some, List, [], ◌∷◌, arith}
use hivekernel.Prelude.Text.{Text, text_eq_iff, text_eq_refl}
use hivekernel.Prelude.Dict.{lookup, lookup-insert, lookup-remove}
use hivekernel.Core.Syscalls.{SystemCall}
use hivekernel.Agent.Stream.{
  Item, item, stop, Answer, waiting, resolved, Stream, new_stream, update_at, set_result, read_task,
  resolve_at, resolve_syscall, do_syscall, report_progress, run_task, write_from, write, Move,
  reads_task, reads_result, calls, reports, ends, writes, Reach, Reach-keeps,
}

-- The calls that are pending are exactly those whose futures wait, and a future that is resolved holds the
-- result with the id of its own call.
pub record IsMatched (s : Stream) : Type 0 where
  pub pending_waits :
      (id : Text) (f : ℕ)
      → lookup id s.pending ≡ some f
      → (f < s.allocated) × (s.futures f ≡ waiting) × (s.owner f ≡ id)
  pub waiting_pends :
      (f : ℕ) → s.futures f ≡ waiting → (f < s.allocated) × (lookup (s.owner f) s.pending ≡ some f)
  pub answered :
      (f : ℕ) (a : Answer) → s.futures f ≡ resolved a → (f < s.allocated) × (a.call_id ≡ s.owner f)

new-IsMatched : IsMatched new_stream
unfolding new_stream lookup
new-IsMatched = record {
  pending_waits = λ id f h. cc;
  waiting_pends = λ f h. cc;
  answered = λ f a h. cc;
}

-- A move that leaves the calls alone.
same-IsMatched :
    (s t : Stream)
    → t.pending ≡ s.pending
    → t.futures ≡ s.futures
    → t.allocated ≡ s.allocated
    → t.owner ≡ s.owner
    → IsMatched s
    → IsMatched t
same-IsMatched s t e1 e2 e3 e4 h = record {
  pending_waits = rw (e1, e2, e3, e4) h.pending_waits;
  waiting_pends = rw (e1, e2, e3, e4) h.waiting_pends;
  answered = rw (e2, e3, e4) h.answered;
}

call-IsMatched :
    (id : Text) (call : SystemCall) (s : Stream)
    → lookup id s.pending ≡ none
    → IsMatched s
    → IsMatched (do_syscall id call s).1
unfolding do_syscall
call-IsMatched id call s fresh h = record {
  pending_waits = λ j f e.
      ground
        (arith, lookup-insert id j s.allocated s.pending, text_eq_iff id j, h.pending_waits j f);
  waiting_pends = λ f e. ground (
    arith,
    lookup-insert id (update_at s.allocated id s.owner f) s.allocated s.pending,
    text_eq_iff id (s.owner f),
    text_eq_refl id,
    h.waiting_pends f,
  );
  answered = λ f a e. ground (arith, h.answered f a);
}

resolve-IsMatched :
    (pending : Option ℕ) (a : Answer) (s : Stream)
    → lookup a.call_id s.pending ≡ pending
    → IsMatched s
    → IsMatched (resolve_at pending a s)
unfolding resolve_at set_result
resolve-IsMatched none a s e h = h
resolve-IsMatched (some f) a s found h =
    let (bound, wait, own) = h.pending_waits a.call_id f found in
    record {
      pending_waits = λ j g e. ground (
        arith,
        lookup-remove a.call_id j s.pending,
        text_eq_iff a.call_id j,
        h.pending_waits j g,
        own,
      );
      waiting_pends = λ g e. ground (
        arith,
        lookup-remove a.call_id (s.owner g) s.pending,
        text_eq_iff a.call_id (s.owner g),
        h.waiting_pends g,
        wait,
        found,
      );
      answered = λ g b e. ground (arith, h.answered g b, own, bound, wait);
    }

write-IsMatched : (q : List Item) (s : Stream) → IsMatched s → IsMatched (write_from q s)
unfolding write_from
write-IsMatched [] s h = h
write-IsMatched (item p ∷ q) s h =
    same-IsMatched s (write_from (item p ∷ q) s) refl refl refl refl h
write-IsMatched (stop ∷ q) s h = same-IsMatched s (write_from (stop ∷ q) s) refl refl refl refl h

Move-IsMatched : (s t : Stream) → Move s t → IsMatched s → IsMatched t
unfolding resolve_syscall read_task report_progress run_task write
Move-IsMatched s t (reads_task id i) h = same-IsMatched s (read_task id s) refl refl refl refl h
Move-IsMatched s t (reads_result a r) h = resolve-IsMatched (lookup a.call_id s.pending) a s refl h
Move-IsMatched s t (calls id call b fresh) h = call-IsMatched id call s fresh h
Move-IsMatched s t (reports message b) h =
    same-IsMatched s (report_progress message s) refl refl refl refl h
Move-IsMatched s t (ends r b) h = same-IsMatched s (run_task r s) refl refl refl refl h
Move-IsMatched s t (writes r) h = write-IsMatched s.queue s h

-- At every moment of a stream the calls that are pending are exactly those whose futures wait, each under
-- its own id, and a future that is resolved holds a result with the id of the call that it was made for.
pub reach-IsMatched : (s : Stream) → Reach new_stream s → IsMatched s
reach-IsMatched s r = Reach-keeps IsMatched Move-IsMatched new-IsMatched r

write-futures : (q : List Item) (s : Stream) → (write_from q s).futures ≡ s.futures
unfolding write_from
write-futures [] s = refl
write-futures (item p ∷ q) s = refl
write-futures (stop ∷ q) s = refl

resolve-keeps :
    (pending : Option ℕ) (b : Answer) (f : ℕ) (a : Answer) (s : Stream)
    → s.futures f ≡ resolved a
    → (resolve_at pending b s).futures f ≡ resolved a
unfolding resolve_at set_result
resolve-keeps none b f a s e = e
resolve-keeps (some g) b f a s e = ground (arith, e)

call-keeps :
    (id : Text) (call : SystemCall) (f : ℕ) (a : Answer) (s : Stream)
    → f < s.allocated
    → s.futures f ≡ resolved a
    → (do_syscall id call s).1.futures f ≡ resolved a
unfolding do_syscall
call-keeps id call f a s bound e = ground (arith, e)

-- A future that is resolved stays as it is.
abbrev Holds : ℕ → Answer → Stream → Type 0
Holds f a s = IsMatched s × (s.futures f ≡ resolved a)

Move-keeps :
    (f : ℕ) (a : Answer) (s t : Stream)
    → Move s t
    → s.futures f ≡ resolved a
    → IsMatched s
    → t.futures f ≡ resolved a
unfolding resolve_syscall read_task report_progress run_task write
Move-keeps f a s t (reads_task id i) e h = e
Move-keeps f a s t (reads_result b r) e h = resolve-keeps (lookup b.call_id s.pending) b f a s e
Move-keeps f a s t (calls id call b fresh) e h = call-keeps id call f a s (h.answered f a e).0 e
Move-keeps f a s t (reports message b) e h = e
Move-keeps f a s t (ends r b) e h = e
Move-keeps f a s t (writes r) e h = ap (λ g. g f) (write-futures s.queue s) ∙ e

Move-Holds : (f : ℕ) (a : Answer) (s t : Stream) → Move s t → Holds f a s → Holds f a t
Move-Holds f a s t m (h, e) = (Move-IsMatched s t m h, Move-keeps f a s t m e h)

resolve-waiting :
    (f : ℕ) (a : Answer) (s : Stream)
    → IsMatched s
    → s.futures f ≡ waiting
    → a.call_id ≡ s.owner f
    → (resolve_syscall a s).futures f ≡ resolved a
unfolding resolve_syscall resolve_at set_result
resolve-waiting f a s h wait own =
    let (bound, pends) = h.waiting_pends f wait in rw (own, pends) (ground (arith, wait))

-- A syscall that waits gets the first result with its id, wherever else the calls and the results come:
-- from then on, whatever moves, its future holds that result.
pub call_answered :
    (f : ℕ) (a : Answer) (s t : Stream)
    → Reach new_stream s
    → s.futures f ≡ waiting
    → a.call_id ≡ s.owner f
    → Reach (resolve_syscall a s) t
    → t.futures f ≡ resolved a
unfolding resolve_syscall
call_answered f a s t reach wait own onward =
    let h = reach-IsMatched s reach in
    (Reach-keeps (Holds f a) (Move-Holds f a)
      (resolve-IsMatched (lookup a.call_id s.pending) a s refl h, resolve-waiting f a s h wait own)
      onward).1
