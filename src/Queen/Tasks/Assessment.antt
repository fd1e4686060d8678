-- ===== src/Queen/Tasks/Assessment.antt =====
-- `_assess_complexity` of queen.py: which of its tiers decides, and the bound on the history that the
-- first tier reads.
use hivekernel.Prelude.{
  ℕ, ◌≤◌, ◌≡◌, ◌⊎◌, inl, inr, refl, ap, true, false, Bool-cases, none, some, Option-cases, List, [],
  ◌∷◌, ◌++◌, length, All, arith, drop, take_last, ◌+◌, ◌-◌, zero, suc, min, length-append,
  length-take_last,
}
use hivekernel.Prelude.Text.{Text}
use hivekernel.Exec.{ok}
use hivekernel.Memory.Compression.{IsSuffix}
use hivekernel.Queen.{Complexity, HistoryEntry, QueenState, max_history}
use hivekernel.Queen.Words.{is_similar, from_history, heuristic}
use hivekernel.Queen.Tasks.{
  QueenEnv, assess_complexity, assess_complexity_llm, push_history, history_or_rest,
  heuristic_or_llm,
}

-- The first entry of the history that is similar to the description, and its complexity.
abbrev pub FromHistory : Text → List HistoryEntry → Complexity → Type 0
FromHistory description history c =
    (before : List HistoryEntry) × (entry : HistoryEntry) × (after : List HistoryEntry) × (history
      ≡ before ++ entry ∷ after)
    × All (λ e. is_similar e.task description ≡ false) before
    × (is_similar entry.task description ≡ true)
    × (c ≡ entry.complexity)

abbrev pub NotInHistory : Text → List HistoryEntry → Type 0
NotInHistory description history = All (λ e. is_similar e.task description ≡ false) history

from_history_lem :
    (description : Text) (history : List HistoryEntry)
    → ((c : Complexity) × (from_history description history ≡ some c)
        × FromHistory description history c)
      ⊎ ((from_history description history ≡ none) × NotInHistory description history)
unfolding from_history
from_history_lem description [] = inr (refl, tt)
from_history_lem description (e ∷ es) = elim (Bool-cases (is_similar e.task description)) [
  | inl same ↦ inl (e.complexity, rw same refl, ([], e, es, refl, tt, same, refl))
  | inr other ↦ elim (from_history_lem description es) [
    | inl (c, found, (before, entry, after, split, none_before, same, its)) ↦ inl (
      c,
      rw other found,
      (e ∷ before, entry, after, ap (λ l. e ∷ l) split, (other, none_before), same, its),
    )
    | inr (nothing, none_before) ↦ inr (rw other nothing, (other, none_before))
  ]
]

module _ {W : Type 0} (env : QueenEnv W) where
  -- The assessment of a task is decided by the first entry of the history that is similar to it;
  -- without one, by the heuristic; and the model is asked only where both are silent. Neither of the
  -- first two changes the state.
  pub assess_complexity_lem :
      (description : Text) (st : QueenState W)
      → ((c : Complexity) × FromHistory description st.agent.task_history c
          × (assess_complexity env description st ≡ (ok c, st)))
        ⊎ (NotInHistory description st.agent.task_history
            × (((c : Complexity) × (heuristic description ≡ some c)
                  × (assess_complexity env description st ≡ (ok c, st)))
                ⊎ ((heuristic description ≡ none)
                    × (assess_complexity env description st
                        ≡ assess_complexity_llm env description st))))
  unfolding assess_complexity history_or_rest heuristic_or_llm
  assess_complexity_lem description st = elim (from_history_lem description st.agent.task_history) [
    | inl (c, found, first) ↦ inl (c, first, rw found refl)
    | inr (nothing, fresh) ↦ inr (
      fresh,
      elim (Option-cases (heuristic description)) [
        | inl silent ↦ inr (silent, rw (nothing, silent) refl)
        | inr (c, decides) ↦ inl (c, decides, rw (nothing, decides) refl)
      ],
    )
  ]

drop-append {ℓ} :
    {A : Type ℓ} (n : ℕ) (xs ys : List A) → n ≤ length xs → drop n (xs ++ ys) ≡ drop n xs ++ ys
drop-append zero xs ys h = refl
drop-append (suc n) [] ys h = absurd (omega (arith, h))
drop-append (suc n) (x ∷ xs) ys h = drop-append n xs ys (omega (arith, h))

-- The history takes the new entry as its last and drops entries at its front, never more than it
-- must: it has at most 20 entries, and exactly one more than before if it had fewer.
push_history_lem :
    (e : HistoryEntry) (history : List HistoryEntry)
    → (length (push_history e history) ≡ min max_history (length history + 1))
      × ((kept : List HistoryEntry) × IsSuffix kept history
          × (push_history e history ≡ kept ++ e ∷ []))
unfolding push_history take_last
push_history_lem e history =
    let n = length (history ++ e ∷ []) in
    (
      ground
          (arith, length-take_last max_history (history ++ e ∷ []), length-append history (e ∷ [])),
      (
        drop (n - max_history) history,
        (n - max_history, refl),
        drop-append (n - max_history) history (e ∷ [])
            (omega (arith, length-append history (e ∷ []))),
      ),
    )
