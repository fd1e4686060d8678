-- ===== src/Memory/Compression.antt =====
-- What `force_compress` of memory.py keeps, and how far three calls of it go.
use hivekernel.Prelude.{
  sym, true, ℕ, zero, suc, ◌-◌, ◌≤◌, ◌≡◌, refl, Bool-cases, if◌then◌else◌, ltb, inl, inr, List, [],
  ◌∷◌, arith, min, length, drop, length-drop,
}
use hivekernel.Prelude.Text.{Text}
use hivekernel.Memory.{
  ToolCall, Message, AgentMemory, messages_len, estimate_total_tokens, last_chars, force_compress,
}

pub length-last_chars : (n : ℕ) (s : Text) → length (last_chars n s) ≡ min n (length s)
unfolding last_chars
length-last_chars n s = ground (arith, length-drop (length s - n) s)

-- One list is the other without some elements at its front.
abbrev pub IsSuffix {ℓ} : {A : Type ℓ} → List A → List A → Type ℓ
IsSuffix ys xs = (n : ℕ) × (ys ≡ drop n xs)

drop-length {ℓ} : {A : Type ℓ} (xs : List A) → drop (length xs) xs ≡ []
drop-length [] = refl
drop-length (x ∷ xs) = drop-length xs

-- One list is the end of the other with so many elements, or all of it where it has fewer.
abbrev pub IsLast {ℓ} : {A : Type ℓ} → ℕ → List A → List A → Type ℓ
IsLast k ys xs = IsSuffix ys xs × (length ys ≡ min k (length xs))

drop-IsLast {ℓ} : {A : Type ℓ} (k : ℕ) (xs : List A) → IsLast k (drop (length xs - k) xs) xs
drop-IsLast k xs = ((length xs - k, refl), ground (arith, length-drop (length xs - k) xs))

last_chars-IsLast : (n : ℕ) (s : Text) → IsLast n (last_chars n s) s
unfolding last_chars
last_chars-IsLast n s = ((length s - n, ground arith), ground (arith, length-drop (length s - n) s))

none-IsLast {ℓ} : {A : Type ℓ} (xs : List A) → IsLast 0 [] xs
none-IsLast xs = ((length xs, sym (drop-length xs)), ground arith)

all-IsLast {ℓ} : {A : Type ℓ} (xs : List A) → IsLast (length xs) xs xs
all-IsLast xs = ((0, refl), ground arith)

module _ (calls_len : List ToolCall → ℕ) where
  pub messages_len-drop-le :
      (n : ℕ) (ms : List Message) → messages_len calls_len (drop n ms) ≤ messages_len calls_len ms
  unfolding messages_len
  messages_len-drop-le zero ms = omega arith
  messages_len-drop-le (suc n) [] = omega arith
  messages_len-drop-le (suc n) (m ∷ ms) = omega (arith, messages_len-drop-le n ms)

  -- Compression never raises the estimate that triggers it.
  pub estimate-force_compress-le :
      (m : AgentMemory)
      → estimate_total_tokens calls_len (force_compress m) ≤ estimate_total_tokens calls_len m
  unfolding estimate_total_tokens force_compress
  estimate-force_compress-le m = ground (
    arith,
    messages_len-drop-le (length m.messages - 4) m.messages,
    messages_len-drop-le (length m.messages - 2) m.messages,
    messages_len-drop-le (length m.messages - 1) m.messages,
    length-drop (length m.summary - 2000) m.summary,
    length-drop (length m.long_term - 1000) m.long_term,
  )

-- How many messages a memory with so many is left with, at most, and how much of its summary and of
-- its long-term text.
abbrev pub kept_messages : ℕ → ℕ
kept_messages n = if ltb 4 n then 4 else if ltb 2 n then 2 else 1

abbrev pub kept_summary : ℕ → ℕ
kept_summary n = if ltb 4 n then 2000 else 0

abbrev pub kept_long_term : ℕ → ℕ → ℕ
kept_long_term n size = if ltb 2 n then size else 1000

messages-force_compress :
    (m : AgentMemory)
    → (force_compress m).messages
      ≡ drop (length m.messages - kept_messages (length m.messages)) m.messages
unfolding force_compress
messages-force_compress m = ground arith

summary-IsLast :
    (m : AgentMemory)
    → IsLast (kept_summary (length m.messages)) (force_compress m).summary m.summary
unfolding force_compress
summary-IsLast m = elim (Bool-cases (ltb 4 (length m.messages))) [
  | inl long ↦ rw long (last_chars-IsLast 2000 m.summary)
  | inr short ↦ elim (Bool-cases (ltb 2 (length m.messages))) [
    | inl some_left ↦ rw (short, some_left) (none-IsLast m.summary)
    | inr few ↦ rw (short, few) (none-IsLast m.summary)
  ]
]

long_term-IsLast :
    (m : AgentMemory)
    → IsLast
        (kept_long_term (length m.messages) (length m.long_term))
        (force_compress m).long_term
        m.long_term
unfolding force_compress
long_term-IsLast m = elim (Bool-cases (ltb 4 (length m.messages))) [
  | inl long ↦
      let more : ltb 2 (length m.messages) ≡ true = ground arith in
      rw (long, more) (all-IsLast m.long_term)
  | inr short ↦ elim (Bool-cases (ltb 2 (length m.messages))) [
    | inl some_left ↦ rw (short, some_left) (all-IsLast m.long_term)
    | inr few ↦ rw (short, few) (last_chars-IsLast 1000 m.long_term)
  ]
]

-- One call keeps exactly an end of each part, or all of a part that is shorter: the last four messages
-- of more than four, the last two of three or four, and the last one of fewer; the last 2000
-- characters of the summary where there were more than four messages, and else nothing of it; and the
-- whole long-term text where there were more than two messages, else its last 1000 characters. At most
-- four messages are left.
pub force_compress-IsLast :
    (m : AgentMemory)
    → IsLast (kept_messages (length m.messages)) (force_compress m).messages m.messages
      × IsLast (kept_summary (length m.messages)) (force_compress m).summary m.summary
      × IsLast
          (kept_long_term (length m.messages) (length m.long_term))
          (force_compress m).long_term
          m.long_term
      × (length (force_compress m).messages ≤ 4)
force_compress-IsLast m =
    let n = kept_messages (length m.messages) in
    (
      rw (messages-force_compress m) (drop-IsLast n m.messages),
      summary-IsLast m,
      long_term-IsLast m,
      rw (messages-force_compress m)
          (ground (arith, length-drop (length m.messages - n) m.messages)),
    )

second_call :
    (m : AgentMemory)
    → length m.messages ≤ 4
    → (length (force_compress m).messages ≤ 2) × ((force_compress m).summary ≡ [])
unfolding force_compress
second_call m h = ground (
  arith,
  length-drop (length m.messages - 2) m.messages,
  length-drop (length m.messages - 1) m.messages,
)

third_call :
    (m : AgentMemory)
    → length m.messages ≤ 2
    → (length (force_compress m).messages ≤ 1)
      × ((force_compress m).summary ≡ [])
      × (length (force_compress m).long_term ≤ 1000)
unfolding force_compress
third_call m h = ground (
  arith,
  length-drop (length m.messages - 1) m.messages,
  length-drop (length m.long_term - 1000) m.long_term,
)

-- After three calls at most one message is left, no summary, and at most 1000 characters of
-- `long_term`.
pub force_compress_thrice :
    (m : AgentMemory)
    → (length (force_compress (force_compress (force_compress m))).messages ≤ 1)
      × ((force_compress (force_compress (force_compress m))).summary ≡ [])
      × (length (force_compress (force_compress (force_compress m))).long_term ≤ 1000)
force_compress_thrice m =
    third_call (force_compress (force_compress m))
      (second_call (force_compress m) (force_compress-IsLast m).3).0
