-- ===== src/Loop/Exceptions.antt =====
-- The exceptions of `AgentLoop.run` (loop.py), and what a run that returns has saved.
use hivekernel.Prelude.{
  ℕ, zero, suc, ◌+◌, ◌≡◌, ◌≢◌, ◌↔◌, refl, true, Bool-cases, inl, inr, none, some, List, [], ◌∷◌,
  arith,
}
use hivekernel.Prelude.Text.{Text, truthy}
use hivekernel.Memory.{ToolCall, Message, AgentMemory, get_context_messages}
use hivekernel.Memory.Storage.{save, load, memory_key, session_key, summary_key}
use hivekernel.Memory.Storage.Laws.{load-save, save-reachable}
use hivekernel.Llm.{LlmClient, Result, ok, runtime_error, other_error, ToolMessage}
use hivekernel.Tools.{ToolRegistry}
use hivekernel.Loop.{ToolWorld, Env, State, LoopError, unbound_local, LoopResult}
use hivekernel.Loop.Overflow.{is_context_overflow}
use hivekernel.Loop.Run.{
  Attempt, got, failed, Turn, answered, called, stopped, Ending, finished, raised, returned,
  exception, attempt, call_model, after_call, finish_turn, respond, after_attempt, turn, after_turn,
  iterate, wrap_up, start, conclude, run,
}

module _ {Args W : Type 0} (env : Env Args W) (registry : ToolRegistry Args (ToolWorld W))
    (system_prompt model : Text) where
  after_call_bound :
      (i : ℕ) (again : Text → State W → Attempt × State W) (r : Result ToolMessage)
      (messages : List Message) (st : State W)
      → ((e : Text) (s : State W) → (again e s).0 ≢ failed unbound_local)
      → (after_call env registry system_prompt model i again r messages st).0 ≢ failed unbound_local
  unfolding after_call
  after_call_bound i again (ok m) messages st ih h = cc
  after_call_bound i again (runtime_error e) messages st ih h =
      elim (Bool-cases (is_context_overflow e)) [
        | inl over ↦ ih e _ (rw over at h)
        | inr other_kind ↦ ground (arith, h, other_kind)
      ]
  after_call_bound i again (other_error e) messages st ih h = cc

  attempt_bound :
      (i k : ℕ) (e : Text) (messages : List Message) (st : State W)
      → (attempt env registry system_prompt model i k e messages st).0 ≢ failed unbound_local
  unfolding attempt
  attempt_bound i zero e messages st h = cc
  attempt_bound i (suc k) e messages st h =
      let (r, st') = call_model env registry system_prompt model messages st in
      after_call_bound i
        (λ e' s.
          attempt env registry system_prompt model i k e'
            (get_context_messages system_prompt s.memory) s)
        r messages st'
        (λ e' s. attempt_bound i k e' (get_context_messages system_prompt s.memory) s) h

  respond_continues :
      (content : Text) (tcs : List ToolCall) (st : State W) (e : LoopError)
      → (respond env registry system_prompt model content tcs st).0 ≢ stopped e
  unfolding respond
  respond_continues content [] st e h = cc
  respond_continues content (tc ∷ tcs) st e h = cc

  after_attempt_bound :
      (i : ℕ) (a : Attempt) (st : State W)
      → a ≢ failed unbound_local
      → (after_attempt env registry system_prompt model i a st).0 ≢ stopped unbound_local
  unfolding after_attempt finish_turn
  after_attempt_bound i (failed e) st ne h = ne (ground arith)
  after_attempt_bound i (got msg ms) st ne h = respond_continues _ _ _ _ h

  turn_bound :
      (i : ℕ) (st : State W)
      → (turn env registry system_prompt model i st).0 ≢ stopped unbound_local
  unfolding turn
  turn_bound i st =
      let messages = get_context_messages system_prompt st.memory in
      let (a, st') = attempt env registry system_prompt model i 3 [] messages st in
      after_attempt_bound i a st' (attempt_bound i 3 [] messages st)

  after_turn_bound :
      (i n : ℕ) (next : Text → ℕ → State W → Ending × State W) (t : Turn) (st : State W)
      → t ≢ stopped unbound_local
      → ((c : Text) (m : ℕ) (s : State W) → (next c m s).0 ≢ raised unbound_local)
      → (after_turn env registry system_prompt model i n next t st).0 ≢ raised unbound_local
  unfolding after_turn
  after_turn_bound i n next (answered c) st ne ih h = cc
  after_turn_bound i n next (called c m) st ne ih h = ih c (n + m) st h
  after_turn_bound i n next (stopped e) st ne ih h = ne (ground arith)

  iterate_bound :
      (k i n : ℕ) (c : Text) (st : State W)
      → (iterate env registry system_prompt model k i n (some c) st).0 ≢ raised unbound_local
  unfolding iterate
  iterate_bound zero i n c st h = cc
  iterate_bound (suc k) i n c st h =
      let (t, st') = turn env registry system_prompt model (i + 1) st in
      after_turn_bound (i + 1) n
        (λ c' total next. iterate env registry system_prompt model k (i + 1) total (some c') next) t
        st' (turn_bound (i + 1) st) (λ c' m s. iterate_bound k (i + 1) m c' s) h

  iterate_first_bound :
      (k : ℕ) (st : State W)
      → (iterate env registry system_prompt model (suc k) 0 0 none st).0 ≢ raised unbound_local
  unfolding iterate
  iterate_first_bound k st =
      let (t, st') = turn env registry system_prompt model (0 + 1) st in
      after_turn_bound (0 + 1) 0
        (λ c' total next. iterate env registry system_prompt model k (0 + 1) total (some c') next) t
        st' (turn_bound (0 + 1) st) (λ c' m s. iterate_bound k (0 + 1) m c' s)

  conclude_bound :
      (before : LlmClient) (e : Ending) (st : State W)
      → e ≢ raised unbound_local
      → (conclude env registry system_prompt model before e st).0 ≢ exception unbound_local
  unfolding conclude
  conclude_bound before (finished c i n) st ne h = cc
  conclude_bound before (raised e) st ne h = ne (ground arith)

  -- `run` reads `content` before any iteration has assigned it exactly when it is given no
  -- iterations at all.
  pub run_unbound_local :
      (max_iterations : ℕ) (prompt : Text) (st : State W)
      → ((run env registry system_prompt model max_iterations prompt st).0
          ≡ exception unbound_local)
        ↔ (max_iterations ≡ 0)
  unfolding run
  run_unbound_local zero prompt st = (λ _. refl, λ _. unfold iterate conclude in refl)
  run_unbound_local (suc k) prompt st = (
    λ h. absurd (
        conclude_bound st.llm
          (iterate env registry system_prompt model (suc k) 0 0 none
            (start env registry system_prompt model prompt st)).0
          _ (iterate_first_bound k (start env registry system_prompt model prompt st)) h),
    λ h. absurd (omega arith),
  )

  -- The artifact store is within reach at the three keys of a memory, and `json.loads` reads back
  -- what `json.dumps` writes of its messages.
  pub record IsSavable (st : State W) : Type 0 where
    pub memory_reachable : st.world.artifacts.reachable (memory_key st.memory.pid) ≡ true
    pub session_reachable : st.world.artifacts.reachable (session_key st.memory.pid) ≡ true
    pub summary_reachable : st.world.artifacts.reachable (summary_key st.memory.pid) ≡ true
    pub nonempty : truthy (env.dumps st.memory.messages) ≡ true
    pub parsed : env.loads (env.dumps st.memory.messages) ≡ some st.memory.messages

  saves :
      (st : State W) (n : AgentMemory)
      → let final = record st {
        world = record st.world {
          artifacts = save env.dumps env.loads st.memory st.world.artifacts;
        };
      } in
        IsSavable final
        → st.memory.pid ≡ n.pid
        → load env.dumps env.loads final.world.artifacts n ≡ st.memory
  saves st n h same =
      let e = save-reachable env.dumps env.loads st.memory st.world.artifacts in
      load-save env.dumps env.loads st.memory n st.world.artifacts same (rw e at h.memory_reachable)
        (rw e at h.session_reachable) (rw e at h.summary_reachable) h.nonempty h.parsed

  conclude_saves :
      (before : LlmClient) (e : Ending) (st : State W) (r : LoopResult) (n : AgentMemory)
      → let final = (conclude env registry system_prompt model before e st).1 in
        (conclude env registry system_prompt model before e st).0 ≡ returned r
        → IsSavable final
        → final.memory.pid ≡ n.pid
        → load env.dumps env.loads final.world.artifacts n ≡ final.memory
  unfolding conclude wrap_up
  conclude_saves before (finished c i k) st r n h savable same = saves _ n savable same
  conclude_saves before (raised e) st r n h savable same = cc

  -- After a run that returns, an agent of the same PID that loads gets the memory that the run left,
  -- whatever it had before, where the store can be reached and reads back the messages.
  pub run_saves :
      (max_iterations : ℕ) (prompt : Text) (st : State W) (r : LoopResult) (n : AgentMemory)
      → (run env registry system_prompt model max_iterations prompt st).0 ≡ returned r
      → IsSavable (run env registry system_prompt model max_iterations prompt st).1
      → (run env registry system_prompt model max_iterations prompt st).1.memory.pid ≡ n.pid
      → load env.dumps env.loads
          (run env registry system_prompt model max_iterations prompt st).1.world.artifacts
          n
        ≡ (run env registry system_prompt model max_iterations prompt st).1.memory
  unfolding run
  run_saves max_iterations prompt st r n h savable same =
      conclude_saves st.llm _ _ r n h savable same
