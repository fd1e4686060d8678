-- ===== src/Orchestrator/Groups/Capping.antt =====
-- `_cap_groups` of orchestrator.py: no subtask is lost, and no more groups than workers are left.
use hivekernel.Prelude.{
  ℕ, zero, suc, ◌+◌, ◌%◌, ◌≤◌, ◌<◌, ◌≡◌, ◌⊎◌, inl, inr, refl, ap, sym, ◌∙◌, Bool, Bool-cases, List,
  [], ◌∷◌, ◌++◌, leb, leb→le, leb→lt, length-drop, length, take, drop, keep, map, arith,
  length-append, length-map, take-append-drop,
}
use hivekernel.Prelude.Text.{Text, text}
use hivekernel.Exec.{ok, raised}
use hivekernel.Orchestrator.Groups.{Group, extend_at, merge_extras, cap_groups}

abbrev pub all_subtasks : List Group → List Text
all_subtasks [] = []
all_subtasks (g ∷ gs) = g.subtasks ++ all_subtasks gs

-- How many of the texts pass the test.
abbrev pub count : (Text → Bool) → List Text → ℕ
count p ts = length (keep p ts)

keep-append {ℓ} :
    {A : Type ℓ} (p : A → Bool) (xs ys : List A) → keep p (xs ++ ys) ≡ keep p xs ++ keep p ys
unfolding keep
keep-append p [] ys = refl
keep-append p (x ∷ xs) ys = ground (arith, keep-append p xs ys)

count-append : (p : Text → Bool) (xs ys : List Text) → count p (xs ++ ys) ≡ count p xs + count p ys
count-append p xs ys = ap length (keep-append p xs ys) ∙ length-append (keep p xs) (keep p ys)

abbrev pub names : List Group → List Text
names gs = map (λ (g : Group). g.name) gs

names-length : (gs hs : List Group) → names gs ≡ names hs → length gs ≡ length hs
names-length gs hs e =
    sym (length-map (λ (g : Group). g.name) gs)
    ∙ ap length e
    ∙ length-map (λ (g : Group). g.name) hs

names-extend_at :
    (i : ℕ) (extra : List Text) (gs : List Group) → names (extend_at i extra gs) ≡ names gs
unfolding extend_at
names-extend_at i extra [] = refl
names-extend_at zero extra (g ∷ gs) = refl
names-extend_at (suc i) extra (g ∷ gs) = ap (λ ns. g.name ∷ ns) (names-extend_at i extra gs)

names-merge_extras :
    (max i : ℕ) (extras merged : List Group)
    → names (merge_extras max i extras merged) ≡ names merged
unfolding merge_extras
names-merge_extras max i [] merged = refl
names-merge_extras max i (g ∷ gs) merged =
    names-merge_extras max (i + 1) gs (extend_at (i % max) g.subtasks merged)
    ∙ names-extend_at (i % max) g.subtasks merged

names-take : (n : ℕ) (gs : List Group) → names (take n gs) ≡ take n (names gs)
names-take zero gs = refl
names-take (suc n) [] = refl
names-take (suc n) (g ∷ gs) = ap (λ ns. g.name ∷ ns) (names-take n gs)

module _ (p : Text → Bool) where
  count-extend_at :
      (i : ℕ) (extra : List Text) (gs : List Group)
      → i < length gs
      → count p (all_subtasks (extend_at i extra gs)) ≡ count p extra + count p (all_subtasks gs)
  unfolding extend_at
  count-extend_at i extra [] h = absurd (omega (arith, h))
  count-extend_at zero extra (g ∷ gs) h = omega (
    arith,
    count-append p (g.subtasks ++ extra) (all_subtasks gs),
    count-append p g.subtasks extra,
    count-append p g.subtasks (all_subtasks gs),
  )
  count-extend_at (suc i) extra (g ∷ gs) h = omega (
    arith,
    count-append p g.subtasks (all_subtasks (extend_at i extra gs)),
    count-append p g.subtasks (all_subtasks gs),
    count-extend_at i extra gs (omega (arith, h)),
  )

  count-merge_extras :
      (n i : ℕ) (extras merged : List Group)
      → length merged ≡ suc n
      → count p (all_subtasks (merge_extras (suc n) i extras merged))
        ≡ count p (all_subtasks extras) + count p (all_subtasks merged)
  unfolding merge_extras keep
  count-merge_extras n i [] merged h = omega arith
  count-merge_extras n i (g ∷ gs) merged h =
      let place = i % suc n in
      let inside : place < length merged = omega (arith, h) in
      omega (
        arith,
        count-merge_extras n (i + 1) gs (extend_at place g.subtasks merged)
            (names-length _ _ (names-extend_at place g.subtasks merged) ∙ h),
        count-extend_at place g.subtasks merged inside,
        count-append p g.subtasks (all_subtasks gs),
      )

  count-split :
      (n : ℕ) (gs : List Group)
      → count p (all_subtasks (drop n gs)) + count p (all_subtasks (take n gs))
        ≡ count p (all_subtasks gs)
  unfolding keep
  count-split zero gs = omega arith
  count-split (suc n) [] = refl
  count-split (suc n) (g ∷ gs) = omega (
    arith,
    count-split n gs,
    count-append p g.subtasks (all_subtasks gs),
    count-append p g.subtasks (all_subtasks (take n gs)),
  )

-- A list of groups in the place of another: at most so many, under the first names, and with the same
-- subtasks, each as often.
abbrev pub Capped : ℕ → List Group → List Group → Type 0
Capped max_workers gs capped =
    (length capped ≤ max_workers)
    × (names capped ≡ take max_workers (names gs))
    × ((p : Text → Bool) → count p (all_subtasks capped) ≡ count p (all_subtasks gs))

take-all {ℓ} : {A : Type ℓ} (n : ℕ) (xs : List A) → length xs ≤ n → take n xs ≡ xs
take-all zero [] h = refl
take-all (suc n) [] h = refl
take-all zero (x ∷ xs) h = absurd (omega (arith, h))
take-all (suc n) (x ∷ xs) h = ap (λ l. x ∷ l) (take-all n xs (omega (arith, h)))

few-Capped : (n : ℕ) (gs : List Group) → length gs ≤ n → Capped n gs gs
few-Capped n gs h = (
  h,
  sym (take-all n (names gs) (omega (arith, h, length-map (λ (g : Group). g.name) gs))),
  λ p. refl,
)

merged-Capped :
    (n : ℕ) (gs : List Group)
    → suc n ≤ length gs
    → Capped (suc n) gs (merge_extras (suc n) 0 (drop (suc n) gs) (take (suc n) gs))
merged-Capped n gs h =
    let merged = take (suc n) gs in
    let extras = drop (suc n) gs in
    let size : length merged ≡ suc n = omega (
      arith,
      h,
      length-append merged extras,
      ap length (take-append-drop (suc n) gs),
      length-drop (suc n) gs,
    ) in
    let same = names-merge_extras (suc n) 0 extras merged in
    (
      omega (arith, names-length _ _ same, size),
      same ∙ names-take (suc n) gs,
      λ p. omega (arith, count-merge_extras p n 0 extras merged size, count-split p (suc n) gs),
    )

-- Capping loses no subtask and repeats none: each occurs as often in the groups that are left as in
-- those that were given. At most `max_workers` groups are left, and they have the first names. Only
-- where there are groups and no workers at all does the code raise instead.
pub cap_groups-Capped :
    (max_workers : ℕ) (gs : List Group)
    → ((capped : List Group) × (cap_groups gs max_workers ≡ ok capped)
        × Capped max_workers gs capped)
      ⊎ ((max_workers ≡ 0)
          × (1 ≤ length gs)
          × (cap_groups gs max_workers ≡ raised (text "integer modulo by zero")))
unfolding cap_groups
cap_groups-Capped max_workers [] = inl ([], refl, few-Capped max_workers [] (omega arith))
cap_groups-Capped zero (g ∷ gs) = inr (refl, omega arith, refl)
cap_groups-Capped (suc n) (g ∷ gs) = elim (Bool-cases (leb (length (g ∷ gs)) (suc n))) [
  | inl few ↦ inl (g ∷ gs, rw few refl, few-Capped (suc n) (g ∷ gs) (leb→le _ _ few))
  | inr many ↦ inl (_, rw many refl, merged-Capped n (g ∷ gs) (omega (arith, leb→lt _ _ many)))
]
