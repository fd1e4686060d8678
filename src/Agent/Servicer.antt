-- ===== src/Agent/Servicer.antt =====
-- sdk/python/hivekernel_sdk/agent.py: the short calls of the servicer, `Init`, `Shutdown`, `Heartbeat`,
-- `Interrupt` and `DeliverMessage`. `on_init`, `on_shutdown` and `handle_message` are those of the agent, with a
-- state of their own. The stopping of the server after `Shutdown` is left out.
use hivekernel.Prelude.{ℕ, Bool, true, Option, none, some, []}
use hivekernel.Prelude.Text.{Text}
use hivekernel.Prelude.Dict.{Dict}
use hivekernel.Exec.{Result, ok, raised}
use hivekernel.Core.Enums.{role_from_proto, shutdown_reason}
use hivekernel.Agent.Mailbox.{
  Message, HiveAgent, CronFields, Routing, accepted, delegated, on_message,
}

pub record AgentConfig : Type 0 where
  pub name : Text
  pub system_prompt : Text
  pub model : Text
  pub metadata : Dict Text

pub record InitRequest : Type 0 where
  pub pid : ℕ
  pub ppid : ℕ
  pub user : Text
  pub role : ℕ
  pub config : AgentConfig

-- Who the agent is, and the PID that its client of the kernel has, where there is one.
pub record Identity : Type 0 where
  pub pid : ℕ
  pub ppid : ℕ
  pub user : Text
  pub role : Text
  pub config : AgentConfig
  pub core_pid : Option ℕ

pub data InitResponse : Type 0 where
  ready : InitResponse
  not_ready : (error : Text) → InitResponse

pub record MessageAck : Type 0 where
  pub message_id : Text
  pub status : ℕ
  pub reply : Text

abbrev pub ack_accepted : ℕ
ack_accepted = 0

init_response : Result (Unit {0}) → InitResponse
init_response (ok u) = ready
init_response (raised e) = not_ready e

module _ {S : Type 0} where
  -- `Init`: who the agent is now, and what its `on_init` makes of the configuration.
  unfoldable pub init :
      (AgentConfig → S → Result (Unit {0}) × S)
      → InitRequest
      → Identity × S
      → InitResponse × (Identity × S)
  unfolding init_response
  init on_init req (self, s) =
      let (r, s') = on_init req.config s in
      (
        init_response r,
        (
          record {
            pid = req.pid;
            ppid = req.ppid;
            user = req.user;
            role = role_from_proto req.role;
            config = req.config;
            core_pid = elim self.core_pid [ none ↦ none | some pid ↦ some req.pid ];
          },
          s',
        ),
      )

  -- `Shutdown`: the snapshot that the agent gives, if any.
  unfoldable pub shutdown :
      ((reason : Text) → S → Result (Option Text) × S) → (reason : ℕ) → S → Result Text × S
  shutdown on_shutdown reason s =
      let (r, s') = on_shutdown (shutdown_reason reason) s in
      (
        elim r [
          | ok snapshot ↦ ok (elim snapshot [ none ↦ [] | some t ↦ t ])
          | raised e ↦ raised e
        ],
        s',
      )

-- `Heartbeat` answers that the agent runs, and `Interrupt` that it was heard.
unfoldable pub heartbeat : ℕ
heartbeat = 1

unfoldable pub interrupt : Bool
interrupt = true

module _ {S : Type 0} (loads : Text → CronFields) (with_task : Text → Text → Text)
    (handle_message : Message → HiveAgent × S → Result MessageAck × (HiveAgent × S)) where
  routed : Routing → HiveAgent × S → Result MessageAck × (HiveAgent × S)
  routed accepted st = (ok (record { message_id = []; status = ack_accepted; reply = [] }), st)
  routed (delegated message) st = handle_message message st

  acked : Message → Result MessageAck → Result MessageAck
  acked message (ok ack) = ok (record ack { message_id = message.message_id })
  acked message (raised e) = raised e

  -- `DeliverMessage`: the mailbox, and the application's handler for what is not for the mailbox.
  unfoldable pub deliver_message : Message → HiveAgent × S → Result MessageAck × (HiveAgent × S)
  unfolding routed acked
  deliver_message message (agent, s) =
      let (routing, agent') = on_message loads with_task message agent in
      let (r, st') = routed routing (agent', s) in (acked message r, st')
