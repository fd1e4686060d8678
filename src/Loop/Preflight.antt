-- ===== src/Loop/Preflight.antt =====
-- The pre-flight compression of loop.py: it ends, and where it ends.
use hivekernel.Prelude.{
  ap, sym, ◌∙◌, take-append-drop, length-take_last, [], ◌∷◌, ◌++◌, Bool-cases, ltb, leb, ltb→le,
  ltb→lt, leb→le, leb→lt, ℕ, zero, suc, ◌+◌, ◌-◌, ◌≤◌, ◌<◌, ◌≡◌, refl, ◌⊎◌, inl, inr, List, arith,
  length, take, drop, take_last,
}
use hivekernel.Memory.{
  ToolCall, Message, AgentMemory, estimate_total_tokens, force_compress, messages_len,
}
use hivekernel.Memory.Compression.{estimate-force_compress-le, messages_len-drop-le}
use hivekernel.Loop.{preflight, context_budget}

module _ (calls_len : List ToolCall → ℕ) (overhead : ℕ) where
  abbrev pub estimate : AgentMemory → ℕ
  estimate m = estimate_total_tokens calls_len m + overhead

  -- The one memory becomes the other by compressions, each made of a memory over the budget, whose
  -- estimate it lowered.
  pub data Lowers : AgentMemory → AgentMemory → Type 0 where
    stay : (m : AgentMemory) → Lowers m m
    lower :
        {m n : AgentMemory}
        → context_budget < estimate m
        → estimate (force_compress m) < estimate m
        → Lowers (force_compress m) n
        → Lowers m n

  -- The end of a run of compressions, each of which lowered the estimate: a memory that fits the
  -- budget, or one more compression of a memory over the budget, which left the estimate as it was.
  abbrev pub IsSettled : AgentMemory → AgentMemory → Type 0
  IsSettled start m =
      (k : AgentMemory) × Lowers start k
      × (((m ≡ k) × (estimate k ≤ context_budget))
          ⊎ ((m ≡ force_compress k) × (context_budget < estimate k) × (estimate m ≡ estimate k)))

  -- With fuel above the estimate the loop ends. It compresses as long as the memory is over the budget
  -- and each compression lowers the estimate, and ends by one of its two exits: the memory fits the
  -- budget, or the last compression, of a memory over it, did not lower the estimate. The estimate has
  -- not grown.
  pub preflight-IsSettled :
      (fuel : ℕ) (m : AgentMemory)
      → estimate_total_tokens calls_len m < fuel
      → IsSettled m (preflight calls_len overhead fuel m)
        × (estimate (preflight calls_len overhead fuel m) ≤ estimate m)
  unfolding preflight
  preflight-IsSettled zero m h = elim h [ ]
  preflight-IsSettled (suc fuel) m h =
      let m' = force_compress m in
      let before = estimate_total_tokens calls_len m in
      let after = estimate_total_tokens calls_len m' in
      let no_higher = estimate-force_compress-le calls_len m in
      elim (Bool-cases (ltb context_budget (before + overhead))) [
        | inr fits ↦
            rw fits
              ((m, stay m, inl (refl, ltb→le context_budget (before + overhead) fits)), omega arith)
        | inl over ↦
            let above : context_budget < before + overhead =
              ltb→lt context_budget (before + overhead) over in
            elim (Bool-cases (leb before after)) [
              | inl stuck ↦
                  let no_lower = leb→le before after stuck in
                  rw (over, stuck)
                    (
                      (m, stay m, inr (refl, above, omega (arith, no_higher, no_lower))),
                      omega (arith, no_higher),
                    )
              | inr lowered ↦
                  let less = leb→lt before after lowered in
                  let ((k, chain, ends), le) =
                    preflight-IsSettled fuel m' (omega (arith, less, h)) in
                  rw (over, lowered)
                    (
                      (k, lower above (omega (arith, less)) chain, ends),
                      omega (arith, le, no_higher),
                    )
            ]
      ]

  messages_len-append :
      (xs ys : List Message)
      → messages_len calls_len (xs ++ ys) ≡ messages_len calls_len xs + messages_len calls_len ys
  unfolding messages_len
  messages_len-append [] ys = omega arith
  messages_len-append (x ∷ xs) ys = omega (arith, messages_len-append xs ys)

  first_compression :
      (m : AgentMemory)
      → 4 < length m.messages
      → length m.summary ≤ 2000
      → force_compress m ≡ record m { messages = take_last 4 m.messages }
  unfolding force_compress
  first_compression m many full = ground arith

  silent_prefix :
      (m : AgentMemory)
      → 4 < length m.messages
      → length m.summary ≤ 2000
      → messages_len calls_len (take (length m.messages - 4) m.messages) ≡ 0
      → estimate_total_tokens calls_len (force_compress m) ≡ estimate_total_tokens calls_len m
  unfolding estimate_total_tokens take_last
  silent_prefix m many full silent =
      let n = length m.messages - 4 in
      let parts =
        ap (messages_len calls_len) (sym (take-append-drop n m.messages))
        ∙ messages_len-append (take n m.messages) (drop n m.messages) in
      rw (first_compression m many full) (ground (arith, parts, silent))

  second_compression :
      (m : AgentMemory)
      → length m.messages ≡ 4
      → 3 ≤ length m.summary
      → estimate_total_tokens calls_len (force_compress m) < estimate_total_tokens calls_len m
  unfolding force_compress estimate_total_tokens
  second_compression m four short =
      ground (arith, messages_len-drop-le calls_len (length m.messages - 2) m.messages)

  -- Where the messages before the last four have no text and no calls, and the summary has from 3 to
  -- 2000 characters, the loop stops after one compression with the estimate as it was, over the
  -- budget, though one more compression would lower it.
  pub preflight_stops_early :
      (fuel : ℕ) (m : AgentMemory)
      → 4 < length m.messages
      → messages_len calls_len (take (length m.messages - 4) m.messages) ≡ 0
      → 3 ≤ length m.summary
      → length m.summary ≤ 2000
      → context_budget < estimate_total_tokens calls_len m + overhead
      → (preflight calls_len overhead (suc fuel) m ≡ force_compress m)
        × (estimate_total_tokens calls_len (force_compress m) ≡ estimate_total_tokens calls_len m)
        × (estimate_total_tokens calls_len (force_compress (force_compress m))
            < estimate_total_tokens calls_len m)
  unfolding preflight
  preflight_stops_early fuel m many silent short full over =
      let first = first_compression m many full in
      let same = silent_prefix m many full silent in
      let lower =
        second_compression (record m { messages = take_last 4 m.messages })
          (omega (arith, length-take_last 4 m.messages)) short in
      (ground (arith, same), same, rw first (omega (arith, lower, (rw first at same))))
