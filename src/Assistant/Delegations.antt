-- ===== src/Assistant/Delegations.antt =====
-- The start of `handle_task` of assistant.py: the results of delegations that came back, and the
-- delegations that are out of time. Clock readings are whole seconds.
pub mod Collected
use hivekernel.Prelude.{
  ℕ, ◌+◌, Bool, Option, none, some, List, [], ◌∷◌, ◌++◌, ltb, map, keep, take, if◌then◌else◌,
}
use hivekernel.Prelude.Text.{Text, text, join_with}
use hivekernel.Prelude.Dict.{Dict, lookup, remove}
use hivekernel.Prelude.Decimal.{show}
use hivekernel.Agent.Mailbox.{Message}

abbrev pub delegation_timeout : ℕ
delegation_timeout = 600

pub record Delegation : Type 0 where
  pub target : Text
  pub task : Text
  pub ts : ℕ
  pub trace_id : Text

-- What `json.loads` makes of the payload of a result: no JSON, or an object with or without an output
-- and an error, which are texts. For JSON that is no object see `first_raise`.
pub data ResultFields : Type 0 where
  no_json : ResultFields
  object : (output error : Option Text) → ResultFields

abbrev pub text_or : Text → Option Text → Text
text_or default none = default
text_or default (some s) = s

unfoldable pub output_of : Text → ResultFields → Text
output_of payload no_json = payload
output_of payload (object output error) = text_or (text_or (text "No output") error) output

unfoldable pub target_of : Option Delegation → Text
target_of none = text "unknown"
target_of (some d) = d.target

abbrev pub is_stale : ℕ → Delegation → Bool
is_stale now d = ltb (d.ts + delegation_timeout) now

unfoldable pub stale_part : Text × Delegation → Text
stale_part (rid, d) =
    text "[Delegation to "
    ++ (d.target
        ++ (text " timed out after "
            ++ (show delegation_timeout ++ (text "s (task: " ++ (take 80 d.task ++ text ")]")))))

unfoldable pub drop_all : List Text → Dict Delegation → Dict Delegation
drop_all [] active = active
drop_all (rid ∷ rids) active = drop_all rids (remove rid active)

-- The parts of the answer for the stale delegations, and the delegations without them.
unfoldable pub drop_stale : ℕ → Dict Delegation → List Text × Dict Delegation
unfolding stale_part drop_all
drop_stale now active =
    let stale = keep (λ (e : Text × Delegation). is_stale now e.1) active in
    (map stale_part stale, drop_all (map (λ (e : Text × Delegation). e.0) stale) active)

abbrev pub raise_at : Option Text → Text → Option (Text × List Text) → Option (Text × List Text)
raise_at (some e) id later = some (e, id ∷ [])
raise_at none id none = none
raise_at none id (some (e, ids)) = some (e, id ∷ ids)

-- The loop over the messages raises at the first payload that is JSON but no object, where
-- `result_data.get` does: the exception, and the requests whose delegations were popped by then. The
-- parameter is the exception for a payload, if it is such JSON.
unfoldable pub first_raise : (Text → Option Text) → List Message → Option (Text × List Text)
first_raise no_object [] = none
first_raise no_object (msg ∷ msgs) =
    raise_at (no_object msg.payload) msg.reply_to (first_raise no_object msgs)

module _ (loads : Text → ResultFields) where
  unfoldable pub result_part : Option Delegation → Message → Text
  unfolding target_of output_of
  result_part delegation msg =
      text "[Completed result from "
      ++ (target_of delegation ++ (text ":]" ++ (10 ∷ output_of msg.payload (loads msg.payload))))

  -- The loop over the messages of the mailbox.
  unfoldable pub take_results : List Message → Dict Delegation → List Text × Dict Delegation
  unfolding result_part
  take_results [] active = ([], active)
  take_results (msg ∷ msgs) active =
      let (parts, rest) = take_results msgs (remove msg.reply_to active) in
      (result_part (lookup msg.reply_to active) msg ∷ parts, rest)

  unfoldable pub collect : ℕ → List Message → Dict Delegation → List Text × Dict Delegation
  unfolding take_results drop_stale
  collect now msgs active =
      let (parts, rest) = take_results msgs active in
      let (stale_parts, left) = drop_stale now rest in (parts ++ stale_parts, left)

unfoldable pub result_prefix : List Text → Text
result_prefix [] = []
result_prefix (p ∷ ps) =
    join_with (10 ∷ 10 ∷ []) (p ∷ ps) ++ (10 ∷ 10 ∷ 45 ∷ 45 ∷ 45 ∷ 10 ∷ 10 ∷ [])
