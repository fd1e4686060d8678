-- ===== src/Maid/Orphans.antt =====
-- `_scan` of maid.py: whom it reports as an orphan, against a description without its table of states.
use hivekernel.Prelude.{
  ℕ, zero, suc, ◌+◌, ◌≤◌, ◌<◌, ◌≡◌, ◌≢◌, ◌↔◌, refl, ◌∙◌, Bool, false, not, ◌&&◌, ◌||◌, Bool-cases,
  inl, inr, Option, none, some, List, [], ◌∷◌, ◌++◌, ◌==◌, ltb, keep, arith, All,
}
use hivekernel.Prelude.Text.{Text}
use hivekernel.Exec.{ok, raised}
use hivekernel.Core.{Core, ProcessInfo, get_process_info}
use hivekernel.Maid.{
  MaidState, Process, later_or, append_found, is_gone, state_of, is_orphan, parent_gone, report_of,
  anomaly, scan_from, scan,
}

-- What the kernel knows of each PID while a scan runs: it answers every query from this table, with
-- the process of the PID that was asked for.
pub record Answers {W : Type 0} (core : Core W) (table : ℕ → Option ProcessInfo) : Type 0 where
  pub found :
      (pid : ℕ) (w : W) (info : ProcessInfo)
      → table pid ≡ some info
      → (core.get_process_info pid w).0 ≡ ok info
  pub missing :
      (pid : ℕ) (w : W)
      → table pid ≡ none
      → (e : Text) × ((core.get_process_info pid w).0 ≡ raised e)
  pub own : (pid : ℕ) (info : ProcessInfo) → table pid ≡ some info → info.pid ≡ pid

-- The processes of the table under so many PIDs from the first on, in order.
abbrev pub entry : Option ProcessInfo → List Process
entry none = []
entry (some info) =
    record {
      pid = info.pid;
      ppid = info.ppid;
      name = info.name;
      state = info.state;
      role = info.role;
      tokens = info.tokens_consumed;
    }
    ∷ []

abbrev pub listed : (ℕ → Option ProcessInfo) → (n first : ℕ) → List Process
listed table zero first = []
listed table (suc n) first = entry (table first) ++ listed table n (first + 1)

-- Some process of the list has the PID and is neither a zombie nor dead.
abbrev pub is_living : ℕ → List Process → Bool
is_living pid [] = false
is_living pid (p ∷ ps) = (p.pid == pid && not (is_gone p.state)) || is_living pid ps

-- A living process that has a parent of which no living process is known.
abbrev pub is_lost : List Process → Process → Bool
is_lost processes p =
    not (p.ppid == 0) && (not (is_gone p.state) && not (is_living p.ppid processes))

abbrev pub Within : ℕ → ℕ → List Process → Type 0
Within first end ps = All (λ (p : Process). (first ≤ p.pid) × (p.pid < end)) ps

abbrev DistinctPids : List Process → Type 0
DistinctPids [] = Unit
DistinctPids (p ∷ ps) = All (λ (q : Process). q.pid ≢ p.pid) ps × DistinctPids ps

absent_state :
    (pid : ℕ) (ps : List Process) → All (λ (q : Process). q.pid ≢ pid) ps → state_of pid ps ≡ none
unfolding state_of
absent_state pid [] h = refl
absent_state pid (p ∷ ps) h = rw (absent_state pid ps h.1) (ground (arith, h.0))

absent_living :
    (pid : ℕ) (ps : List Process) → All (λ (q : Process). q.pid ≢ pid) ps → is_living pid ps ≡ false
absent_living pid [] h = refl
absent_living pid (p ∷ ps) h = ground (arith, h.0, absent_living pid ps h.1)

parent_there : (o : Option ℕ) → parent_gone (later_or o none) ≡ parent_gone o
parent_there none = refl
parent_there (some state) = refl

parent_gone_lem :
    (pid : ℕ) (ps : List Process)
    → DistinctPids ps
    → parent_gone (state_of pid ps) ≡ not (is_living pid ps)
unfolding state_of parent_gone
parent_gone_lem pid [] h = refl
parent_gone_lem pid (p ∷ ps) h = elim (Bool-cases (p.pid == pid)) [
  | inl here ↦
      let same : p.pid ≡ pid = ground (arith, here) in
      let gone = rw same at h.0 in
      rw (here, absent_state pid ps gone, absent_living pid ps gone) (ground arith)
  | inr other ↦ rw other (parent_there (state_of pid ps) ∙ parent_gone_lem pid ps h.1)
]

Within-mono :
    (pid n : ℕ) (ps : List Process)
    → Within (pid + 1) (pid + 1 + n) ps
    → Within pid (pid + suc n) ps
Within-mono pid n [] h = tt
Within-mono pid n (p ∷ ps) h = ((omega (arith, h.0), omega (arith, h.0)), Within-mono pid n ps h.1)

above :
    (pid end own : ℕ) (ps : List Process)
    → own ≡ pid
    → Within (pid + 1) end ps
    → All (λ (q : Process). q.pid ≢ own) ps
above pid end own [] e h = tt
above pid end own (p ∷ ps) e h =
    ((λ same. absurd (omega (arith, h.0, e, same))), above pid end own ps e h.1)

module _ (table : ℕ → Option ProcessInfo) where
  entry-Within :
      (pid n : ℕ) (o : Option ProcessInfo) (ps : List Process)
      → ((info : ProcessInfo) → o ≡ some info → info.pid ≡ pid)
      → Within (pid + 1) (pid + 1 + n) ps
      → DistinctPids ps
      → Within pid (pid + suc n) (entry o ++ ps) × DistinctPids (entry o ++ ps)
  entry-Within pid n (some info) ps same within distinct = (
    (ground (arith, same info refl), Within-mono pid n ps within),
    (above pid (pid + 1 + n) info.pid ps (same info refl) within, distinct),
  )
  entry-Within pid n none ps same within distinct = (Within-mono pid n ps within, distinct)

  listed-Within :
      (n pid : ℕ)
      → ((i : ℕ) (info : ProcessInfo) → table i ≡ some info → info.pid ≡ i)
      → Within pid (pid + n) (listed table n pid) × DistinctPids (listed table n pid)
  listed-Within zero pid own = (tt, tt)
  listed-Within (suc n) pid own =
      let (within, distinct) = listed-Within n (pid + 1) own in
      entry-Within pid n (table pid) (listed table n (pid + 1)) (own pid) within distinct

module _ {W : Type 0} (core : Core W) (table : ℕ → Option ProcessInfo)
    (answers : Answers core table) where
  append_found-entry :
      (pid : ℕ) (w : W) (o : Option ProcessInfo) (ps : List Process)
      → table pid ≡ o
      → append_found (core.get_process_info pid w).0 ps ≡ entry o ++ ps
  append_found-entry pid w none ps e = let (_, gone) = answers.missing pid w e in rw gone refl
  append_found-entry pid w (some info) ps e = rw (answers.found pid w info e) refl

  scan_from_lem : (n pid : ℕ) (st : MaidState W) → (scan_from core n pid st).0 ≡ listed table n pid
  unfolding scan_from get_process_info
  scan_from_lem zero pid st = refl
  scan_from_lem (suc n) pid st =
      let (r, st') = get_process_info core pid st in
      rw (scan_from_lem n (pid + 1) st')
        (append_found-entry pid st.world (table pid) (listed table n (pid + 1)) refl)

keep_same :
    (p q : Process → Bool) (ps : List Process) → ((x : Process) → p x ≡ q x) → keep p ps ≡ keep q ps
unfolding keep
keep_same p q [] h = refl
keep_same p q (x ∷ xs) h = ground (arith, h x, keep_same p q xs h)

is_orphan_lem : (ps : List Process) (p : Process) → DistinctPids ps → is_orphan ps p ≡ is_lost ps p
unfolding is_orphan
is_orphan_lem ps p h = ground (arith, parent_gone_lem p.ppid ps h)

no_anomalies :
    (zombies orphans : List Process) (a b : Text)
    → (anomaly a zombies ++ anomaly b orphans ≡ []) ↔ ((zombies ≡ []) × (orphans ≡ []))
unfolding anomaly
no_anomalies [] [] a b = (λ e. (refl, refl), λ e. refl)
no_anomalies [] (o ∷ os) a b = (λ e. cc, λ e. cc)
no_anomalies (z ∷ zs) os a b = (λ e. cc, λ e. cc)

-- A parent that is not among the first PIDs is unknown.
beyond-state_of :
    (pid end : ℕ) (ps : List Process) → Within 1 end ps → end ≤ pid → state_of pid ps ≡ none
beyond-state_of pid end ps h beyond = absent_state pid ps (far ps h)
  where
    far : (qs : List Process) → Within 1 end qs → All (λ (q : Process). q.pid ≢ pid) qs
    far [] h = tt
    far (q ∷ qs) h = ((λ e. absurd (omega (arith, h.0, e, beyond))), far qs h.1)

abbrev pub is_child_of_far : ℕ → Process → Bool
is_child_of_far last p = ltb last p.ppid && not (is_gone p.state)

far_children :
    (last : ℕ) (all ps : List Process)
    → Within 1 (1 + last) all
    → keep (is_child_of_far last) (keep (is_orphan all) ps) ≡ keep (is_child_of_far last) ps
unfolding keep is_orphan
far_children last all [] h = refl
far_children last all (p ∷ ps) h =
    ground (arith, far_children last all ps h, beyond-state_of p.ppid (1 + last) all h)

module _ {W : Type 0} (core : Core W) (table : ℕ → Option ProcessInfo)
    (answers : Answers core table) where
  report_lem :
      (now : ℕ) (found : List Process)
      → DistinctPids found
      → let report = report_of now found in
        (report.processes ≡ found)
        × (report.orphans ≡ keep (is_lost found) found)
        × (report.zombies ≡ keep (λ p. p.state == 5) found)
        × ((report.anomalies ≡ []) ↔ ((report.zombies ≡ []) × (report.orphans ≡ [])))
  unfolding report_of
  report_lem now found distinct = (
    refl,
    keep_same (is_orphan found) (is_lost found) found (λ p. is_orphan_lem found p distinct),
    refl,
    no_anomalies _ _ _ _,
  )

  -- Where the kernel answers from a table of processes that stays as it is during the scan, a scan
  -- finds exactly the processes of the table with the PIDs from 1 to `max_pid_scan`, in order. As
  -- orphans it reports exactly those that are alive, have a parent PID that is not 0, and whose parent
  -- is not among the living processes found; as zombies exactly those in the zombie state; and it
  -- reports an anomaly exactly where there is one of either.
  pub scan_exact :
      (st : MaidState W)
      → let report = (scan core st).0 in
        let all = listed table st.agent.max_pid_scan 1 in
        (report.processes ≡ all)
        × (report.orphans ≡ keep (is_lost all) all)
        × (report.zombies ≡ keep (λ p. p.state == 5) all)
        × ((report.anomalies ≡ []) ↔ ((report.zombies ≡ []) × (report.orphans ≡ [])))
  unfolding scan
  scan_exact st =
      let n = st.agent.max_pid_scan in
      let (_, distinct) = listed-Within table n 1 answers.own in
      rw (scan_from_lem core table answers n 1 st)
        (report_lem (core.time (scan_from core n 1 st).1.world) (listed table n 1) distinct)

  -- Every living process of the table with a PID from 1 to `max_pid_scan` whose parent has a PID
  -- beyond them is reported as an orphan, also where that parent is alive.
  pub scan_false_alarm :
      (st : MaidState W)
      → let last = st.agent.max_pid_scan in
        keep (is_child_of_far last) (scan core st).0.orphans
        ≡ keep (is_child_of_far last) (listed table last 1)
  unfolding scan report_of
  scan_false_alarm st =
      let n = st.agent.max_pid_scan in
      rw (scan_from_lem core table answers n 1 st) (
        far_children n (listed table n 1) (listed table n 1)
          (listed-Within table n 1 answers.own).0)
