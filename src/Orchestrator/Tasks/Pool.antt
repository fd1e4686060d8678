-- ===== src/Orchestrator/Tasks/Pool.antt =====
-- `handle_task` of orchestrator.py: the pool of workers, spawned and killed.
use hivekernel.Prelude.{ℕ, ◌+◌, ◌≡◌, ◌⊎◌, inr, refl, subst, ◌∙◌, List, [], ◌∷◌}
use hivekernel.Prelude.Text.{Text, text}
use hivekernel.Exec.{Result, ok, raised, Exec, pure, continue, ◌>>=◌}
use hivekernel.Core.{spawn_child, kill_child, log, spawn_note}
use hivekernel.Orchestrator.Groups.{Group}
use hivekernel.Orchestrator.Execution.{Progress, kill_safe}
use hivekernel.Orchestrator.Tasks.{OrchestratorEnv, worker_spawn, spawn_workers, kill_workers}
use hivekernel.Orchestrator.Tasks.Spares.{spawned_pids, killed_pids, Spares, log-Spares}

abbrev pub backwards : List ℕ → List ℕ → List ℕ
backwards [] acc = acc
backwards (pid ∷ pids) acc = backwards pids (pid ∷ acc)

-- Where a run may end that began with the PIDs `s` spawned and `k` killed: each worker spawned since has
-- been killed, in the order of the spawns, or an exception left it before any was killed.
abbrev pub Ends : {W B : Type 0} → List ℕ → List ℕ → Result B × Progress W → Type 0
Ends s k (r, end) =
    ((pids : List ℕ) × (spawned_pids end.calls ≡ backwards pids s)
      × (killed_pids end.calls ≡ backwards pids k))
    ⊎ ((e : Text) × (r ≡ raised e) × (killed_pids end.calls ≡ k))

-- Where the spawning of the pool may end: nobody is killed, and the workers answered were spawned.
abbrev pub Pool : {W : Type 0} → List ℕ → List ℕ → Result (List ℕ) × Progress W → Type 0
Pool s k (ok pids, end) = (spawned_pids end.calls ≡ backwards pids s) × (killed_pids end.calls ≡ k)
Pool s k (raised e, end) = killed_pids end.calls ≡ k

-- A statement that spares everybody, before what ends in `P`.
next_lem :
    {W A B : Type 0} (P : Result B × Progress W → Type 0) (k : List ℕ)
    → ((e : Text) (end : Progress W) → killed_pids end.calls ≡ k → P (raised e, end))
    → (r : Result A) (f : A → Exec (Progress W) B) (st mid : Progress W) → killed_pids st.calls ≡ k
    → Spares st mid
    → ((a : A) → P (f a mid))
    → P (continue r f mid)
next_lem P k stop (ok a) f st mid at_k kept rest = rest a
next_lem P k stop (raised e) f st mid at_k kept rest = stop e mid (kept.kills ∙ at_k)

pub bind_lem :
    {W A B : Type 0} (P : Result B × Progress W → Type 0) (k : List ℕ)
    → ((e : Text) (end : Progress W) → killed_pids end.calls ≡ k → P (raised e, end))
    → (m : Exec (Progress W) A) (f : A → Exec (Progress W) B) (st : Progress W)
    → killed_pids st.calls ≡ k
    → Spares st (m st).1
    → ((a : A) (mid : Progress W) → Spares st mid → P (f a mid))
    → P ((m >>= f) st)
bind_lem P k stop m f st at_k kept rest =
    let (r, mid) = m st in next_lem P k stop r f st mid at_k kept (λ a. rest a mid kept)

pub stop-Ends :
    {W B : Type 0} (s k : List ℕ) (e : Text) (end : Progress W)
    → killed_pids end.calls ≡ k
    → Ends {B = B} s k (raised e, end)
stop-Ends s k e end at_k = inr (e, refl, at_k)

pub bind-Ends :
    {W A B : Type 0} (m : Exec (Progress W) A) (f : A → Exec (Progress W) B) (st : Progress W)
    → Spares st (m st).1
    → ((a : A) (mid : Progress W) → Ends (spawned_pids mid.calls) (killed_pids mid.calls) (f a mid))
    → Ends (spawned_pids st.calls) (killed_pids st.calls) ((m >>= f) st)
bind-Ends m f st kept rest =
    bind_lem (Ends (spawned_pids st.calls) (killed_pids st.calls)) (killed_pids st.calls)
      (stop-Ends _ _) m f st refl kept
      (λ a mid same.
        subst (λ s. Ends s (killed_pids st.calls) (f a mid)) same.spawns
          (subst (λ k. Ends (spawned_pids mid.calls) k (f a mid)) same.kills (rest a mid)))

module _ {W : Type 0} (env : OrchestratorEnv W) where
  cons-Pool :
      (s k : List ℕ) (pid : ℕ) (r : Result (List ℕ)) (end : Progress W)
      → Pool (pid ∷ s) k (r, end)
      → Pool s k (continue r (λ pids. pure (pid ∷ pids)) end)
  cons-Pool s k pid (ok pids) end pool = pool
  cons-Pool s k pid (raised e) end pool = pool

  spawned-Pool :
      (name : Text) (r : Result ℕ) (f : ℕ → Exec (Progress W) (List ℕ)) (world : W)
      (st : Progress W)
      → ((pid : ℕ) (mid : Progress W)
          → spawned_pids mid.calls ≡ pid ∷ spawned_pids st.calls
          → killed_pids mid.calls ≡ killed_pids st.calls
          → Pool (spawned_pids st.calls) (killed_pids st.calls) (f pid mid))
      → Pool
          (spawned_pids st.calls)
          (killed_pids st.calls)
          (continue r f (record st { world = world; calls = spawn_note name r ∷ st.calls }))
  spawned-Pool name (ok pid) f world st rest = rest pid _ refl refl
  spawned-Pool name (raised e) f world st rest = refl

  pub spawn_workers-Pool :
      (i : ℕ) (groups : List Group) (st : Progress W)
      → Pool (spawned_pids st.calls) (killed_pids st.calls) (spawn_workers env i groups st)
  unfolding spawn_workers spawn_child
  spawn_workers-Pool i [] st = (refl, refl)
  spawn_workers-Pool i (g ∷ gs) st =
      let s = spawned_pids st.calls in
      let k = killed_pids st.calls in
      spawned-Pool _ (env.core.spawn_child (worker_spawn i) st.world).0 _ _ st (λ pid mid new same.
        bind_lem (Pool s k) k (λ e end at_k. at_k) (log env.core (text "info") _) _ mid same
          (log-Spares env.core _ _ mid)
          (λ _ st1 kept.
            let (r, end) = spawn_workers env (i + 1) gs st1 in
            cons-Pool s k pid r end (
              subst (λ t. Pool t k (r, end)) (kept.spawns ∙ new)
                (subst (λ t. Pool (spawned_pids st1.calls) t (r, end)) (kept.kills ∙ same)
                  (spawn_workers-Pool (i + 1) gs st1)))))

  pub kill_workers_lem :
      (pids : List ℕ) (st : Progress W)
      → let end = (kill_workers env pids st).1 in
        (spawned_pids end.calls ≡ spawned_pids st.calls)
        × (killed_pids end.calls ≡ backwards pids (killed_pids st.calls))
  unfolding kill_workers kill_safe kill_child
  kill_workers_lem [] st = (refl, refl)
  kill_workers_lem (pid ∷ pids) st = kill_workers_lem pids (kill_safe env.core pid st).1
