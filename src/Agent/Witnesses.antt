-- ===== src/Agent/Witnesses.antt =====
-- Tests of agent.py, and its theorems at an agent with two requests, of which one is answered.
use hivekernel.Prelude.{◌≡◌, ◌≢◌, refl, true, false, some, List, [], ◌∷◌, arith}
use hivekernel.Prelude.Text.{Text, text, truthy}
use hivekernel.Prelude.Dict.{lookup, insert, remove}
use hivekernel.Agent.Mailbox.{
  Message, waiting, resolved, new_agent, CronFields, no_json, object, on_message, open_request,
  normalize, drain_pending_results,
}
use hivekernel.Agent.Mailbox.Requests.{
  Requests, Event, absent, sending, opens, sends, fails, receives, expires, gives_up, cancels,
  drains, step, run,
}
use hivekernel.Agent.Mailbox.Soundness.{IsSound, new-IsSound}
use hivekernel.Agent.Mailbox.Runs.{run-IsSound}
use hivekernel.Agent.Mailbox.Replies.{first_reply}
use hivekernel.Agent.Mailbox.Leaks.{send_fails}

abbrev no_cron : Text → CronFields
no_cron payload = no_json

abbrev keep_payload : Text → Text → Text
keep_payload description payload = payload

abbrev response : Text → Text → Message
response id payload = record {
  message_id = text "m";
  from_pid = 4;
  type = text "task_response";
  payload = payload;
  reply_to = id;
}

abbrev begin : Requests
begin = record { agent = new_agent; owner = λ f. []; waiter = λ f. absent }

-- Of three requests the second is answered, and the third times out.
abbrev history : List Event
history =
    opens (text "r1")
    ∷ opens (text "r2")
    ∷ opens (text "r3")
    ∷ sends 1
    ∷ sends 2
    ∷ receives (response (text "r2") (text "yes"))
    ∷ expires 2
    ∷ gives_up 2
    ∷ []

program : Unit {0}
unfolding run step on_message open_request new_agent lookup insert remove text drain_pending_results
program = tt

-- A late answer to no pending request goes to the mailbox.
test_mailbox :
    (run no_cron keep_payload
      (receives (response (text "r9") (text "late")) ∷ history)
      begin).agent.pending_results
    ≡ response (text "r9") (text "late") ∷ []
unfolding program
test_mailbox = refl

test_pending : (run no_cron keep_payload history begin).agent.pending_requests ≡ (text "r1", 0) ∷ []
unfolding program
test_pending = refl

test_cron :
    (normalize
      (λ s. object (some (text "scan")) false)
      (λ d s. d)
      (record (response [] (text "old")) { type = text "cron_task" })).payload
    ≡ text "scan"
unfolding normalize text
test_cron = refl

begin-IsSound : IsSound begin
begin-IsSound = new-IsSound (λ f. [])

run-IsSound_example : IsSound (run no_cron keep_payload history begin)
run-IsSound_example = run-IsSound no_cron keep_payload history begin begin-IsSound

abbrev opened : Requests
opened = run no_cron keep_payload (opens (text "r1") ∷ []) begin

opened_waits : opened.agent.futures 0 ≡ waiting
unfolding program
opened_waits = refl

opened_owner : text "r1" ≡ opened.owner 0
unfolding program
opened_owner = refl

opened-IsSound : IsSound opened
opened-IsSound = run-IsSound no_cron keep_payload (opens (text "r1") ∷ []) begin begin-IsSound

given : truthy (text "r1") ≡ true
unfolding text
given = refl

first_reply_example :
    (run no_cron keep_payload
        (receives (response (text "r1") (text "yes"))
          ∷ expires 0
          ∷ cancels 0
          ∷ receives (response (text "r1") (text "no"))
          ∷ [])
        opened).agent.futures
      0
    ≡ resolved (response (text "r1") (text "yes"))
first_reply_example =
    first_reply no_cron keep_payload (response (text "r1") (text "yes"))
      (expires 0 ∷ cancels 0 ∷ receives (response (text "r1") (text "no")) ∷ []) opened 0
      opened-IsSound opened_waits opened_owner given

opened_pends : lookup (text "r1") opened.agent.pending_requests ≡ some 0
unfolding program
opened_pends = refl

other_id : text "r2" ≢ text "r1"
unfolding text
other_id e = ground (arith, e)

opened_sends : opened.waiter 0 ≡ sending
unfolding program
opened_sends = refl

send_fails_example :
    lookup
      (text "r1")
      (run no_cron keep_payload
        (fails 0
          ∷ opens (text "r3")
          ∷ receives (response (text "r2") [])
          ∷ expires 0
          ∷ gives_up 0
          ∷ drains
          ∷ [])
        opened).agent.pending_requests
    ≡ some 0
send_fails_example =
    send_fails no_cron keep_payload
      (opens (text "r3")
        ∷ receives (response (text "r2") [])
        ∷ expires 0
        ∷ gives_up 0
        ∷ drains
        ∷ [])
      opened (text "r1") 0 opened-IsSound opened_sends opened_pends
      (tt, (other_id, (tt, (tt, (tt, tt)))))
