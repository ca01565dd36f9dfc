-- ===== src/Commands.antt =====
-- cpynodus_ii/features/command_intake.py, command_models.py and command_subscriptions.py, on the
-- transport of core/mqtt.py: what one loop of the node does with the messages that it received. An
-- action runs on the node's state and ends with a value or an exception; `faults` says which of the
-- calls that need memory raise.
pub mod Routes
pub mod Parse
pub mod Switch
pub mod SwitchCommand
pub mod Field
pub mod Minimal
pub mod Intake
mod Single
pub mod Recognised
pub mod Rules
pub mod Messages
pub mod Publishes
pub mod Reported
pub mod Applied
pub mod Announced
pub mod Answered
pub mod Queue
pub mod Verdicts
pub mod Drained
mod Tests
use c_py_nodus_ii.Prelude.{ℕ, String, Bool, Option, none, some, List, [], ◌∷◌, ◌++◌, if◌then◌else◌}
use c_py_nodus_ii.Prelude.Text.{strip, is_space, is_blank}
use c_py_nodus_ii.Topics.{mqtt_topic}
use c_py_nodus_ii.Switch.Config.{SwitchConfig}
use c_py_nodus_ii.Switch.Service.{Pins}

pub record ReceivedMessage : Type 0 where
  pub topic : String
  pub payload_text : String

-- The parts of `RuntimeConfig` that the intake reads.
pub record RuntimeConfig : Type 0 where
  pub base_topic : String
  pub sensor_id : String
  pub hostname : String
  pub switch : SwitchConfig

-- One entry of "updates" in a meta patch
pub record MetaUpdate : Type 0 where
  pub section : String
  pub key : String
  pub value : Bool

-- The documents that the intake publishes.
pub data Payload : Type 0 where
  config_ack : (message_id : String) (accepted duplicate : Bool) → Payload
  calibration_ack : (message_id : String) (accepted : Bool) → Payload
  config_result :
      (message_id : String) (applied : Bool) (updated : ℕ) (duplicate : Bool) (error : String)
      → Payload
  switch_result :
      (message_id : String) (applied : Bool) (updated : ℕ) (error persistence_mode : String)
      (persistence_errors : List String)
      → Payload
  switch_event :
      (device_id channel_id label : String) (state : String) (message_id : String) (timestamp : ℕ)
      (source : Option String)
      → Payload
  switch_state : String → Payload
  meta_patch :
      (device_id : String) (timestamp : ℕ) (source message_id : String) (sections : List String)
      (updates : List MetaUpdate)
      → Payload

pub record PublishedMessage : Type 0 where
  pub topic : String
  pub payload : Payload
  pub retain : Bool

pub data Phase : Type 0 where
  ignored : Phase
  error : Phase
  published : Phase
  skipped : Phase
  other : Phase

pub record CommandResult : Type 0 where
  pub phase : Phase
  pub topic : String
  pub command_type : String
  pub published_count : ℕ
  pub errors : List String
  pub runtime_config : Option RuntimeConfig
  pub message_id : String
  pub duplicate : Bool
  pub persistence_mode : String
  pub requested_state : String
  pub halt_requested : Bool
  pub reboot_requested : Bool
  pub reboot_mode : String
  pub ntp_resync_requested : Bool

-- `MemoryError`, the `RuntimeError` "pystack exhausted", and any other.
pub data Raised : Type 0 where
  memory : Raised
  pystack : Raised
  failure : Raised

-- The transport's queues, the configuration that the loop holds, the pins, `int(time())`, and what
-- the next calls that need memory do.
pub record Node : Type 0 where
  pub received_messages : List ReceivedMessage
  pub published_messages : List PublishedMessage
  pub subscriptions : List String
  pub config : RuntimeConfig
  pub pins : Pins
  pub now : ℕ
  pub faults : List (Option Raised)

pub data Outcome (A : Type 0) : Type 0 where
  done : A → Outcome A
  raised : Raised → Outcome A

abbrev pub Exec : Type 0 → Type 0
Exec A = Node → Outcome A × Node

abbrev pub pure : {A : Type 0} → A → Exec A
pure a n = (done a, n)

abbrev pub raise : {A : Type 0} → Raised → Exec A
raise e n = (raised e, n)

abbrev pub continue : {A B : Type 0} → Outcome A → (A → Exec B) → Exec B
continue (done a) f n = f a n
continue (raised e) f n = (raised e, n)

infixl 5 ◌>>=◌ ◌>>◌
unfoldable pub ◌>>=◌ : {A B : Type 0} → Exec A → (A → Exec B) → Exec B
◌>>=◌ m f n = let (r, n') = m n in continue r f n'

abbrev pub ◌>>◌ : {A B : Type 0} → Exec A → Exec B → Exec B
m >> k = m >>= λ _. k

abbrev pub handle : {A : Type 0} → Outcome A → (Raised → Exec A) → Exec A
handle (done a) h n = (done a, n)
handle (raised e) h n = h e n

-- `try: m  except Exception as exc: h(exc)`
unfoldable pub try_except : {A : Type 0} → Exec A → (Raised → Exec A) → Exec A
try_except m h n = let (r, n') = m n in handle r h n'

abbrev pub modify : (Node → Node) → Exec (Unit {0})
modify f n = (done tt, f n)

abbrev pub current_config : Exec RuntimeConfig
current_config n = (done n.config, n)

abbrev pub fault_of : List (Option Raised) → Option Raised
fault_of [] = none
fault_of (f ∷ fs) = f

abbrev pub without_first : List (Option Raised) → List (Option Raised)
without_first [] = []
without_first (f ∷ fs) = fs

-- A call that needs memory: it takes the next fault; after the last one every call runs.
unfoldable pub allocate : Exec (Unit {0})
allocate n = elim (fault_of n.faults) [
  | none ↦ (done tt, record n { faults = without_first n.faults })
  | some e ↦ (raised e, record n { faults = without_first n.faults })
]

abbrev pub published_message : String → Payload → Bool → PublishedMessage
published_message topic payload retain = record {
  topic = strip is_space topic;
  payload = payload;
  retain = retain;
}

-- `MQTTTransport.publish`
unfoldable pub publish : String → Payload → Bool → Exec PublishedMessage
publish topic payload retain = do
  allocate
  modify λ n. record n {
    published_messages = n.published_messages ++ published_message topic payload retain ∷ [];
  }
  pure (published_message topic payload retain)

-- `mqtt_topic(runtime_config, ...)`
abbrev pub topic_in : RuntimeConfig → List String → String
topic_in c parts = mqtt_topic c.base_topic parts

-- `a or b` of two texts
abbrev pub or_text : String → String → String
or_text a b = if is_blank a then b else a

-- `_device_id`
unfoldable pub device_id : RuntimeConfig → String
device_id c = or_text c.sensor_id (or_text c.switch.device_id c.hostname)
