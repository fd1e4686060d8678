-- ===== src/Dashboard/Tables.antt =====
-- Python's `dict` with numbers as keys, in the order of insertion.
use hivekernel.Prelude.{ℕ, ◌≡◌, refl, Option, none, some, List, [], ◌∷◌, ◌==◌, if◌then◌else◌, arith}

abbrev pub Table : Type 0 → Type 0
Table V = List (ℕ × V)

module _ {V : Type 0} where
  -- `d.get(k)`
  unfoldable pub find : ℕ → Table V → Option V
  find k [] = none
  find k ((j, v) ∷ d) = if j == k then some v else find k d

  -- `d[k] = v`
  unfoldable pub put : ℕ → V → Table V → Table V
  put k v [] = (k, v) ∷ []
  put k v ((j, w) ∷ d) = if j == k then (j, v) ∷ d else (j, w) ∷ put k v d

  -- `d.pop(k, None)`, without the value
  unfoldable pub pop : ℕ → Table V → Table V
  pop k [] = []
  pop k ((j, w) ∷ d) = let rest = pop k d in if j == k then rest else (j, w) ∷ rest

  pub find-put :
      (k j : ℕ) (v : V) (d : Table V) → find j (put k v d) ≡ (if k == j then some v else find j d)
  unfolding find put
  find-put k j v [] = refl
  find-put k j v ((i, w) ∷ d) = ground (arith, find-put k j v d)

  pub find-pop : (k j : ℕ) (d : Table V) → find j (pop k d) ≡ (if k == j then none else find j d)
  unfolding find pop
  find-pop k j [] = ground arith
  find-pop k j ((i, w) ∷ d) = ground (arith, find-pop k j d)

  -- No key stands twice.
  abbrev pub Distinct : Table V → Type 0
  Distinct [] = Unit
  Distinct ((k, v) ∷ d) = (find k d ≡ none) × Distinct d

  pub Distinct-put : (k : ℕ) (v : V) (d : Table V) → Distinct d → Distinct (put k v d)
  unfolding find put
  Distinct-put k v [] h = (refl, tt)
  Distinct-put k v ((j, w) ∷ d) h = ground (arith, find-put k j v d, Distinct-put k v d)

  pub Distinct-pop : (k : ℕ) (d : Table V) → Distinct d → Distinct (pop k d)
  unfolding pop
  Distinct-pop k [] h = h
  Distinct-pop k ((j, v) ∷ d) h = ground (arith, find-pop k j d, Distinct-pop k d)

  pub pop_absent : (k : ℕ) (d : Table V) → find k d ≡ none → pop k d ≡ d
  unfolding find pop
  pop_absent k [] h = refl
  pop_absent k ((j, v) ∷ d) h = ground (arith, pop_absent k d)
