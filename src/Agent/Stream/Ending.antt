-- ===== src/Agent/Stream/Ending.antt =====
-- The end of the stream of a task: the writer writes what is left and returns.
use hivekernel.Prelude.{
  ℕ, zero, suc, Bool, true, false, ◌||◌, ◌≡◌, refl, sym, ap, subst, append-nil, ◌∙◌, List, [], ◌∷◌,
  ◌++◌, map, All, append_assoc, length,
}
use hivekernel.Prelude.Text.{Text}
use hivekernel.Agent.Stream.{
  TaskProgress, Item, item, stop, Stream, new_stream, done, write_from, write, write_all, Reach,
}
use hivekernel.Agent.Stream.Order.{
  IsPlain, IsTerminal, IsOrdered, before, during, ending, closing, ended, write-IsOrdered,
  reach-IsOrdered,
}

write_all-IsOrdered : (n : ℕ) (s : Stream) → IsOrdered s → IsOrdered (write_all n s)
unfolding write_all
write_all-IsOrdered zero s h = h
write_all-IsOrdered (suc n) s h = write_all-IsOrdered n (write s) (write-IsOrdered s h)

-- The messages in a queue.
unfoldable pub messages : List Item → List TaskProgress
messages [] = []
messages (item p ∷ q) = p ∷ messages q
messages (stop ∷ q) = messages q

has_stop : List Item → Bool
has_stop [] = false
has_stop (item p ∷ q) = has_stop q
has_stop (stop ∷ q) = true

write-at : (q : List Item) (s : Stream) → s.queue ≡ q → write s ≡ write_from q s
unfolding write
write-at q s e = ap (λ x. write_from x s) e

or-false : (b : Bool) → b ≡ (b || false)
or-false true = refl
or-false false = refl

or-true : (b : Bool) → true ≡ (b || true)
or-true true = refl
or-true false = refl

write_all_lem :
    (q : List Item) (s : Stream)
    → s.queue ≡ q
    → ((write_all (length q) s).written ≡ s.written ++ messages q)
      × ((write_all (length q) s).returned ≡ (s.returned || has_stop q))
unfolding write_all write_from messages has_stop
write_all_lem [] s e = (sym (append-nil s.written), or-false s.returned)
write_all_lem (item p ∷ q) s e =
    let (w, r) = write_all_lem q (write_from (item p ∷ q) s) refl in
    let turn = ap (write_all (length q)) (write-at (item p ∷ q) s e) in
    (
      ap (λ (x : Stream). x.written) turn ∙ (w ∙ append_assoc s.written (p ∷ []) (messages q)),
      ap (λ (x : Stream). x.returned) turn ∙ r,
    )
write_all_lem (stop ∷ q) s e =
    let (w, r) = write_all_lem q (write_from (stop ∷ q) s) refl in
    let turn = ap (write_all (length q)) (write-at (stop ∷ q) s e) in
    (
      ap (λ (x : Stream). x.written) turn ∙ w,
      ap (λ (x : Stream). x.returned) turn ∙ (r ∙ or-true s.returned),
    )

has_stop_end :
    (ps : List TaskProgress) (last : TaskProgress)
    → has_stop (map item ps ++ (item last ∷ stop ∷ [])) ≡ true
unfolding has_stop
has_stop_end [] last = refl
has_stop_end (p ∷ ps) last = has_stop_end ps last

or_right : (a b : Bool) → b ≡ true → (a || b) ≡ true
or_right true b h = refl
or_right false b h = h

-- One message ends the task, and it is the last.
abbrev pub EndsOnce : Text → List TaskProgress → Type 0
EndsOnce id l =
    (ws : List TaskProgress) × (last : TaskProgress) × (l ≡ ws ++ last ∷ [])
    × All (IsPlain id) ws
    × IsTerminal id last

returned-EndsOnce : (s : Stream) → IsOrdered s → s.returned ≡ true → EndsOnce s.task_id s.written
returned-EndsOnce s (before h1 h2 h3 h4) r = cc
returned-EndsOnce s (during queued h1 h2 h3 h4 h5) r = cc
returned-EndsOnce s (ending queued last h1 h2 h3 h4 h5 h6) r = cc
returned-EndsOnce s (closing ws last h1 h2 h3 h4 h5 h6) r = cc
returned-EndsOnce s (ended ws last h1 h2 h3 h4 h5 h6) r = (ws, last, h3, h4, h5)

done-has_stop :
    (s : Stream) → IsOrdered s → s.runner ≡ done → (s.returned || has_stop s.queue) ≡ true
unfolding has_stop
done-has_stop s (before h1 h2 h3 h4) d = cc
done-has_stop s (during queued h1 h2 h3 h4 h5) d = cc
done-has_stop s (ending queued last h1 h2 h3 h4 h5 h6) d =
    or_right s.returned (has_stop s.queue) (ap has_stop h2 ∙ has_stop_end queued last)
done-has_stop s (closing ws last h1 h2 h3 h4 h5 h6) d =
    or_right s.returned (has_stop s.queue) (ap has_stop h2)
done-has_stop s (ended ws last h1 h2 h3 h4 h5 h6) d = ap (λ b. b || has_stop s.queue) h6

write_from-task_id : (q : List Item) (s : Stream) → (write_from q s).task_id ≡ s.task_id
unfolding write_from
write_from-task_id [] s = refl
write_from-task_id (item p ∷ q) s = refl
write_from-task_id (stop ∷ q) s = refl

write_all-task_id : (n : ℕ) (s : Stream) → (write_all n s).task_id ≡ s.task_id
unfolding write_all write
write_all-task_id zero s = refl
write_all-task_id (suc n) s = write_all-task_id n (write s) ∙ write_from-task_id s.queue s

-- Once the handler of a task has returned or raised, the writer alone, which takes as many turns as the
-- queue is long, writes all that is in the queue in its order and returns. Of the messages
-- that it has written then, all with the id of the task, exactly the last one ends the task.
pub stream_ends :
    (s : Stream)
    → Reach new_stream s
    → s.runner ≡ done
    → ((write_all (length s.queue) s).returned ≡ true)
      × ((write_all (length s.queue) s).written ≡ s.written ++ messages s.queue)
      × EndsOnce s.task_id (write_all (length s.queue) s).written
stream_ends s reach d =
    let h = reach-IsOrdered s reach in
    let (w, r) = write_all_lem s.queue s refl in
    let returned = r ∙ done-has_stop s h d in
    let t = write_all (length s.queue) s in
    (
      returned,
      w,
      subst (λ id. EndsOnce id t.written) (write_all-task_id (length s.queue) s)
          (returned-EndsOnce t (write_all-IsOrdered (length s.queue) s h) returned),
    )
