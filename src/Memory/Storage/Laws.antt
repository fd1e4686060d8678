-- ===== src/Memory/Storage/Laws.antt =====
-- Saving and loading of memory.py: the round trip, and that agents do not see each other's memory.
use mathlib.Core.Bool.{false≢true}
use hivekernel.Prelude.{
  sym, ◌∙◌, Option-cases, ◌⊎◌, ℕ, ◌≡◌, ◌≢◌, refl, true, false, Bool-cases, inl, inr, Option, some,
  List, arith, if◌then◌else◌,
}
use hivekernel.Prelude.Text.{Text, text, text_eq, text_eq_refl, text_eq_iff, truthy}
use hivekernel.Prelude.Dict.{insert, lookup-insert}
use hivekernel.Prelude.Decimal.{show, show-injective, show-IsDigit, digits_before}
use hivekernel.Memory.{Message, AgentMemory}
use hivekernel.Memory.Storage.{
  write, Artifacts, get_artifact, store_artifact, key, memory_key, session_key, summary_key, load,
  save,
}

-- A key determines the process and the suffix.
pub key-injective : (p q : ℕ) (s t : Text) → key p s ≡ key q t → (p ≡ q) × (s ≡ t)
unfolding key text
key-injective p q s t e =
    let parts =
      digits_before (show p) (show q) s t b':' (show-IsDigit p) (show-IsDigit q) (λ d. omega arith)
        (ground arith) in
    (show-injective p q parts.0, parts.1)

keys_apart :
    (p q : ℕ) (s t : Text) → (p ≢ q) ⊎ (text_eq s t ≡ false) → text_eq (key p s) (key q t) ≡ false
keys_apart p q s t ne = elim (Bool-cases (text_eq (key p s) (key q t))) [
  | inl same ↦ absurd (clash (key-injective p q s t ((text_eq_iff _ _).0 same)) ne)
  | inr other ↦ other
]
  where
    clash : (p ≡ q) × (s ≡ t) → (p ≢ q) ⊎ (text_eq s t ≡ false) → ⊥
    clash (e, f) (inl h) = h e
    clash (e, f) (inr h) = false≢true (sym h ∙ (text_eq_iff s t).1 f)

-- A read after a write that went through.
get-store :
    (k j content : Text) (a b : Artifacts)
    → store_artifact k content a ≡ some b
    → get_artifact j b ≡ (if text_eq k j then some content else get_artifact j a)
unfolding get_artifact store_artifact
get-store k j content a b e = ground (arith, text_eq_iff k j, lookup-insert k j content a.entries)

reachable-store :
    (k content : Text) (a b : Artifacts)
    → store_artifact k content a ≡ some b
    → b.reachable ≡ a.reachable
unfolding store_artifact
reachable-store k content a b e = ground arith

module _ (dumps : List Message → Text) (loads : Text → Option (List Message)) where
  write_elsewhere :
      (k j content : Text) (rest : Artifacts → Artifacts) (a : Artifacts)
      → text_eq k j ≡ false
      → ((b : Artifacts) → get_artifact j (rest b) ≡ get_artifact j b)
      → get_artifact j (write dumps loads k content rest a) ≡ get_artifact j a
  unfolding write
  write_elsewhere k j content rest a other same = elim (Option-cases (store_artifact k content a)) [
    | inl fails ↦ rw (fails, write)
    | inr (b, stored) ↦ rw (stored, write) (same b ∙ (get-store k j content a b stored ∙ rw other))
  ]

  -- What an agent saves is not seen at the keys of another.
  save_elsewhere :
      (m : AgentMemory) (q : ℕ) (t : Text) (a : Artifacts)
      → m.pid ≢ q
      → get_artifact (key q t) (save dumps loads m a) ≡ get_artifact (key q t) a
  unfolding save
  save_elsewhere m q t a ne =
      let other = λ (s : Text). keys_apart m.pid q s t (inl ne) in
      write_elsewhere _ _ _ _ a (other _) (λ b.
        write_elsewhere _ _ _ _ b (other _) (λ c. write_elsewhere _ _ _ _ c (other _) (λ d. refl)))

  -- Saving the memory of one process does not change what an agent with another PID loads.
  pub load-save_ne :
      (m n : AgentMemory) (a : Artifacts)
      → m.pid ≢ n.pid
      → load dumps loads (save dumps loads m a) n ≡ load dumps loads a n
  unfolding load
  load-save_ne m n a ne = simp (
    save_elsewhere m n.pid (text "memory") a ne,
    save_elsewhere m n.pid (text "session") a ne,
    save_elsewhere m n.pid (text "summary") a ne,
  )

  save_through :
      (m : AgentMemory) (a : Artifacts)
      → a.reachable (memory_key m.pid) ≡ true
      → a.reachable (session_key m.pid) ≡ true
      → a.reachable (summary_key m.pid) ≡ true
      → save dumps loads m a ≡ record a {
        entries = insert (summary_key m.pid) m.summary (
            insert
              (session_key m.pid)
              (dumps m.messages)
              (insert (memory_key m.pid) m.long_term a.entries));
      }
  unfolding save write store_artifact
  save_through m a r1 r2 r3 = ground arith

  -- The contents at the three keys after a save that goes through.
  saved :
      (m : AgentMemory) (a : Artifacts)
      → a.reachable (memory_key m.pid) ≡ true
      → a.reachable (session_key m.pid) ≡ true
      → a.reachable (summary_key m.pid) ≡ true
      → (get_artifact (memory_key m.pid) (save dumps loads m a) ≡ some m.long_term)
        × (get_artifact (session_key m.pid) (save dumps loads m a) ≡ some (dumps m.messages))
        × (get_artifact (summary_key m.pid) (save dumps loads m a) ≡ some m.summary)
  unfolding get_artifact
  saved m a r1 r2 r3 = rw (save_through m a r1 r2 r3) (
    simp (
      r1,
      lookup-insert,
      text_eq_refl,
      keys_apart m.pid m.pid (text "summary") (text "memory") (inr (unfold text in refl)),
      keys_apart m.pid m.pid (text "session") (text "memory") (inr (unfold text in refl)),
    ),
    simp (
      r2,
      lookup-insert,
      text_eq_refl,
      keys_apart m.pid m.pid (text "summary") (text "session") (inr (unfold text in refl)),
    ),
    simp (r3, lookup-insert, text_eq_refl),
  )

  -- Where the three keys are reachable and `json.loads` reads back what `json.dumps` wrote, an agent
  -- that loads after a save has the memory that was saved, whatever it had before.
  pub load-save :
      (m n : AgentMemory) (a : Artifacts)
      → m.pid ≡ n.pid
      → a.reachable (memory_key m.pid) ≡ true
      → a.reachable (session_key m.pid) ≡ true
      → a.reachable (summary_key m.pid) ≡ true
      → truthy (dumps m.messages) ≡ true
      → loads (dumps m.messages) ≡ some m.messages
      → load dumps loads (save dumps loads m a) n ≡ m
  unfolding load
  load-save m n a same r1 r2 r3 nonempty parsed =
      let stored = saved m a r1 r2 r3 in
      simp (← same, stored.0, stored.1, stored.2, nonempty, parsed) (ground arith)

  write-reachable :
      (k content : Text) (rest : Artifacts → Artifacts) (a : Artifacts)
      → ((b : Artifacts) → (rest b).reachable ≡ b.reachable)
      → (write dumps loads k content rest a).reachable ≡ a.reachable
  unfolding write
  write-reachable k content rest a same = elim (Option-cases (store_artifact k content a)) [
    | inl fails ↦ rw (fails, write)
    | inr (b, stored) ↦ rw (stored, write) (same b ∙ reachable-store k content a b stored)
  ]

  pub save-reachable :
      (m : AgentMemory) (a : Artifacts) → (save dumps loads m a).reachable ≡ a.reachable
  unfolding save
  save-reachable m a =
      write-reachable _ _ _ a
        (λ b. write-reachable _ _ _ b (λ c. write-reachable _ _ _ c (λ d. refl)))
