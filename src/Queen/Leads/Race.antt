-- ===== src/Queen/Leads/Race.antt =====
-- `_lead_reaper` of queen.py between its awaits, with what other tasks do to the pool meanwhile. The `for`
-- loop has an index into the live list, `self._idle_leads`, and pauses at each call that kills a lead.
use hivekernel.Prelude.{
  ℕ, ◌+◌, ◌≡◌, refl, sym, ap, subst, ◌∙◌, true, false, not, Bool-cases, inl, inr, List, [], ◌∷◌,
  ◌++◌, keep, drop, length, arith, append_assoc, append-nil, if◌then◌else◌, All,
}
use hivekernel.Queen.{IdleLead}
use hivekernel.Queen.Leads.{is_expired}

-- Whether a pass is under way: its `now`, the index of the next lead, and `still_idle`.
pub data Pass : Type 0 where
  asleep : Pass
  paused : (now index : ℕ) → (still_idle : List IdleLead) → Pass

-- The pool, and the PIDs that the reaper asked the kernel to kill, the last first.
pub record Race : Type 0 where
  pub leads : List IdleLead
  pub pass : Pass
  pub kills : List ℕ

-- The loop up to its next kill, or to its end and the assignment after it.
unfoldable pub sweep : (now index : ℕ) → (ahead still_idle : List IdleLead) → Race → Race
sweep now i [] still_idle st = record st { leads = still_idle; pass = asleep }
sweep now i (l ∷ ls) still_idle st =
    let rest = sweep now (i + 1) ls (still_idle ++ l ∷ []) st in
    if is_expired now l
    then record st { pass = paused now (i + 1) still_idle; kills = l.pid ∷ st.kills }
    else rest

unfoldable pub wake : (now : ℕ) → Race → Race
unfolding sweep
wake now st = sweep now 0 st.leads [] st

resume_at : Pass → Race → Race
unfolding sweep
resume_at asleep st = st
resume_at (paused now i still_idle) st = sweep now i (drop i st.leads) still_idle st

-- The loop after the answer to a kill.
unfoldable pub resume : Race → Race
unfolding resume_at
resume st = resume_at st.pass st

-- `_release_lead` of other tasks.
unfoldable pub release_all : List IdleLead → Race → Race
release_all ls st = record st { leads = st.leads ++ ls }

-- `self._idle_leads.pop(0)` of `_acquire_lead`, whose await does not touch the pool.
unfoldable pub pop : Race → Race
pop st = record st { leads = drop 1 st.leads }

-- A pass that other tasks only release leads to: `all` are the leads of its start and those released.
pub data Sweeps (now : ℕ) (begin : Race) : List IdleLead → Race → Type 0 where
  wakes :
      {all : List IdleLead} {st : Race}
      → all ≡ begin.leads
      → st ≡ wake now begin
      → Sweeps now begin all st
  goes_on :
      {all : List IdleLead} {st : Race} (i : ℕ) (still_idle released : List IdleLead)
      → Sweeps now begin all st
      → st.pass ≡ paused now i still_idle
      → Sweeps now begin (all ++ released) (resume (release_all released st))

module _ (now : ℕ) where
  abbrev pub fresh : List IdleLead → List IdleLead
  fresh = keep (λ l. not (is_expired now l))

  -- The PIDs of the expired leads, after those of `kills`.
  unfoldable pub expired_after : List ℕ → List IdleLead → List ℕ
  expired_after kills [] = kills
  expired_after kills (l ∷ ls) =
      expired_after (if is_expired now l then l.pid ∷ kills else kills) ls

  data IsSwept (kills : List ℕ) (all : List IdleLead) (st : Race) : Type 0 where
    is_over :
        st.pass ≡ asleep
        → st.leads ≡ fresh all
        → st.kills ≡ expired_after kills all
        → IsSwept kills all st
    is_paused :
        (before ahead : List IdleLead)
        → st.pass ≡ paused now (length before) (fresh before)
        → st.leads ≡ all
        → all ≡ before ++ ahead
        → st.kills ≡ expired_after kills before
        → IsSwept kills all st

  fresh-append : (xs ys : List IdleLead) → fresh (xs ++ ys) ≡ fresh xs ++ fresh ys
  unfolding keep
  fresh-append [] ys = refl
  fresh-append (x ∷ xs) ys = ground (arith, fresh-append xs ys)

  expired_after-append :
      (kills : List ℕ) (xs ys : List IdleLead)
      → expired_after kills (xs ++ ys) ≡ expired_after (expired_after kills xs) ys
  unfolding expired_after
  expired_after-append kills [] ys = refl
  expired_after-append kills (x ∷ xs) ys =
      expired_after-append (if is_expired now x then x.pid ∷ kills else kills) xs ys

  drop-length : (xs ys : List IdleLead) → drop (length xs) (xs ++ ys) ≡ ys
  drop-length [] ys = refl
  drop-length (x ∷ xs) ys = drop-length xs ys

  length-snoc : (xs : List IdleLead) (l : IdleLead) → length xs + 1 ≡ length (xs ++ l ∷ [])
  length-snoc [] l = omega arith
  length-snoc (x ∷ xs) l = omega (arith, length-snoc xs l)

  fresh-expired :
      (xs : List IdleLead) (l : IdleLead)
      → is_expired now l ≡ true
      → fresh (xs ++ l ∷ []) ≡ fresh xs
  unfolding keep
  fresh-expired xs l e = fresh-append xs (l ∷ []) ∙ (rw e (append-nil (fresh xs)))

  fresh-kept :
      (xs : List IdleLead) (l : IdleLead)
      → is_expired now l ≡ false
      → fresh (xs ++ l ∷ []) ≡ fresh xs ++ l ∷ []
  unfolding keep
  fresh-kept xs l e = fresh-append xs (l ∷ []) ∙ (rw e refl)

  kills-expired :
      (kills : List ℕ) (xs : List IdleLead) (l : IdleLead)
      → is_expired now l ≡ true
      → expired_after kills (xs ++ l ∷ []) ≡ l.pid ∷ expired_after kills xs
  unfolding expired_after
  kills-expired kills xs l e = expired_after-append kills xs (l ∷ []) ∙ (rw e refl)

  kills-kept :
      (kills : List ℕ) (xs : List IdleLead) (l : IdleLead)
      → is_expired now l ≡ false
      → expired_after kills (xs ++ l ∷ []) ≡ expired_after kills xs
  unfolding expired_after
  kills-kept kills xs l e = expired_after-append kills xs (l ∷ []) ∙ (rw e refl)

  paused-eq :
      {i j : ℕ} {xs ys : List IdleLead} → i ≡ j → xs ≡ ys → paused now i xs ≡ paused now j ys
  paused-eq e f = λ k. paused now (e k) (f k)

  sweep-IsSwept :
      (kills : List ℕ) (all before ahead : List IdleLead) (st : Race)
      → st.leads ≡ all
      → all ≡ before ++ ahead
      → st.kills ≡ expired_after kills before
      → IsSwept kills all (sweep now (length before) ahead (fresh before) st)
  unfolding sweep
  sweep-IsSwept kills all before [] st same split killed =
      let whole = split ∙ append-nil before in
      is_over refl (ap fresh (sym whole)) (killed ∙ ap (expired_after kills) (sym whole))
  sweep-IsSwept kills all before (l ∷ ls) st same split killed =
      let regrouped = split ∙ sym (append_assoc before (l ∷ []) ls) in
      elim (Bool-cases (is_expired now l)) [
        | inl dead ↦ rw dead (
            is_paused (before ++ l ∷ []) ls
              (paused-eq (length-snoc before l) (sym (fresh-expired before l dead))) same regrouped
              (ap (λ ks. l.pid ∷ ks) killed ∙ sym (kills-expired kills before l dead)))
        | inr alive ↦
            rw (alive, length-snoc before l, ← fresh-kept before l alive)
              (sweep-IsSwept kills all (before ++ l ∷ []) ls st same regrouped
                (killed ∙ sym (kills-kept kills before l alive)))
      ]

  resume-IsSwept :
      (kills : List ℕ) (all released : List IdleLead) (i : ℕ) (still_idle : List IdleLead)
      (st : Race)
      → st.pass ≡ paused now i still_idle
      → IsSwept kills all st
      → IsSwept kills (all ++ released) (resume (release_all released st))
  unfolding resume resume_at release_all
  resume-IsSwept kills all released i still_idle st p (is_over h1 h2 h3) = cc
  resume-IsSwept kills all released i still_idle st p (is_paused before ahead h1 h2 h3 h4) =
      let added = release_all released st in
      let whole = ap (λ l. l ++ released) (h2 ∙ h3) ∙ append_assoc before ahead released in
      let ahead_of = ap (drop (length before)) whole ∙ drop-length before (ahead ++ released) in
      let turn =
        ap (λ q. resume_at q added) h1
        ∙ ap (λ q. sweep now (length before) q (fresh before) added) ahead_of in
      subst (IsSwept kills (all ++ released)) (sym turn) (
        sweep-IsSwept kills (all ++ released) before (ahead ++ released) added
          (ap (λ l. l ++ released) h2)
          (ap (λ l. l ++ released) h3 ∙ append_assoc before ahead released) h4)

  over_lem :
      (kills : List ℕ) (all : List IdleLead) (st : Race)
      → IsSwept kills all st
      → st.pass ≡ asleep
      → (st.leads ≡ fresh all) × (st.kills ≡ expired_after kills all)
  over_lem kills all st (is_over h1 h2 h3) e = (h2, h3)
  over_lem kills all st (is_paused before ahead h1 h2 h3 h4) e = cc

  Sweeps-IsSwept :
      {begin : Race} {whole : List IdleLead} {end : Race}
      → Sweeps now begin whole end
      → IsSwept begin.kills whole end
  unfolding wake expired_after keep
  Sweeps-IsSwept {begin} {whole} {end} (wakes e f) =
      subst (IsSwept begin.kills whole) (sym f)
        (sweep-IsSwept begin.kills whole [] begin.leads begin (sym e) e refl)
  Sweeps-IsSwept {begin} {whole} {end} (goes_on {all} {st} i still_idle released s p) =
      resume-IsSwept begin.kills all released i still_idle st p (Sweeps-IsSwept s)

  -- A pass of the reaper that is not disturbed by a task that takes a lead, though others may be released
  -- while it waits for a kill, ends with the pool of those that have not expired, in their order, the released ones
  -- included, and has had exactly the expired ones killed.
  pub sweep_exact :
      (begin st : Race) (all : List IdleLead)
      → Sweeps now begin all st
      → st.pass ≡ asleep
      → (st.leads ≡ fresh all) × (st.kills ≡ expired_after begin.kills all)
  sweep_exact begin st all s e = over_lem begin.kills all st (Sweeps-IsSwept s) e

  sweep_lem :
      (i : ℕ) (ahead still_idle : List IdleLead) (st : Race)
      → All (λ l. is_expired now l ≡ false) ahead
      → sweep now i ahead still_idle st ≡ record st { leads = still_idle ++ ahead; pass = asleep }
  unfolding sweep
  sweep_lem i [] still_idle st h =
      ap (λ ls. record st { leads = ls; pass = asleep }) (sym (append-nil still_idle))
  sweep_lem i (l ∷ ls) still_idle st (alive, h) = rw alive (
      sweep_lem (i + 1) ls (still_idle ++ l ∷ []) st h
      ∙ ap (λ x. record st { leads = x; pass = asleep }) (append_assoc still_idle (l ∷ []) ls))

  -- Where the first lead of the pool has expired, the others have not, and a task takes the first while the
  -- reaper waits for its kill, the pass ends with the second lead neither in the pool nor killed, though
  -- nobody was given it.
  pub lead_lost :
      (lead lost : IdleLead) (rest : List IdleLead) (kills : List ℕ)
      → is_expired now lead ≡ true
      → is_expired now lost ≡ false
      → All (λ l. is_expired now l ≡ false) rest
      → resume
          (pop (wake now (record { leads = lead ∷ lost ∷ rest; pass = asleep; kills = kills })))
        ≡ record { leads = rest; pass = asleep; kills = lead.pid ∷ kills }
  unfolding wake resume resume_at pop sweep
  lead_lost lead lost rest kills dead alive h = rw dead (
      sweep_lem 1 rest []
        (record { leads = lost ∷ rest; pass = paused now 1 []; kills = lead.pid ∷ kills }) h)
