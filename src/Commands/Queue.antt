-- ===== src/Commands/Queue.antt =====
-- The actions that leave the queue of received messages as it is.
use c_py_nodus_ii.Prelude.{
  String, Bool, true, false, ◌||◌, ◌≡◌, refl, ◌∙◌, Option, none, some, List, if◌then◌else◌,
}
use c_py_nodus_ii.Switch.Hardware.{is_ready}
use c_py_nodus_ii.Switch.Service.{SwitchService, SwitchApplyResult}
use c_py_nodus_ii.Switch.Config.{SwitchChannelConfig}
use c_py_nodus_ii.Commands.{
  RuntimeConfig, Payload, Raised, memory, pystack, failure, Node, Outcome, done, raised, Exec, pure,
  raise, allocate, publish, continue, handle, try_except, fault_of, ◌>>=◌,
}
use c_py_nodus_ii.Commands.Routes.{channel_id_from_topic}
use c_py_nodus_ii.Prelude.Text.{is_blank, is_space, strip}
use c_py_nodus_ii.Prelude.Text.{upper_is}
use c_py_nodus_ii.Commands.Parse.{Firmware, SwitchCommand, parse_switch_command}
use c_py_nodus_ii.Commands.Switch.{
  Settings, persist_switch_state, persist_failed, apply_state, publish_state, publish_for_channel,
  publish_switch_result, publish_switch_meta_patch, publish_patch,
}
use c_py_nodus_ii.Commands.SwitchCommand.{
  otherwise, settle, Progress, publish_failed, command_failed, record_state, publish_command,
  publish_applied, after_apply, run_switch_command, run_parsed, parse_failed,
  process_switch_command_message,
}

pub record Keeps {A : Type 0} (m : Exec A) : Type 0 where
  pub queue : (n : Node) → ((m n).1).received_messages ≡ n.received_messages

module _ {A B : Type 0} where
  queue_continued :
      (o : Outcome A) {f : A → Exec B} (n : Node)
      → ((a : A) → Keeps (f a))
      → (continue o f n).1.received_messages ≡ n.received_messages
  queue_continued (done a) n k = (k a).queue n
  queue_continued (raised e) n k = refl

  pub Keeps-bind :
      {m : Exec A} {f : A → Exec B} → Keeps m → ((a : A) → Keeps (f a)) → Keeps (m >>= f)
  unfolding ◌>>=◌
  Keeps-bind {m} {f} k l = record { queue = λ n. queue_continued ((m n).0) ((m n).1) l ∙ k.queue n }

  queue_settled :
      (o : Outcome A) {h : Raised → Exec B} {f : A → Exec B} (n : Node)
      → ((e : Raised) → Keeps (h e))
      → ((a : A) → Keeps (f a))
      → (settle o h f n).1.received_messages ≡ n.received_messages
  queue_settled (done a) n h k = (k a).queue n
  queue_settled (raised e) n h k = (h e).queue n

  pub Keeps-otherwise :
      {m : Exec A} {h : Raised → Exec B} {f : A → Exec B}
      → Keeps m
      → ((e : Raised) → Keeps (h e))
      → ((a : A) → Keeps (f a))
      → Keeps (otherwise m h f)
  unfolding otherwise
  Keeps-otherwise {m} k h l = record {
    queue = λ n. queue_settled ((m n).0) ((m n).1) h l ∙ k.queue n;
  }

module _ {A : Type 0} where
  pub Keeps-pure : (a : A) → Keeps (pure a)
  Keeps-pure a = record { queue = λ n. refl }

  pub Keeps-raise : (e : Raised) → Keeps (raise {A = A} e)
  Keeps-raise e = record { queue = λ n. refl }

  queue_handled :
      (o : Outcome A) {h : Raised → Exec A} (n : Node)
      → ((e : Raised) → Keeps (h e))
      → (handle o h n).1.received_messages ≡ n.received_messages
  queue_handled (done a) n h = refl
  queue_handled (raised e) n h = (h e).queue n

  pub Keeps-try_except :
      {m : Exec A} {h : Raised → Exec A}
      → Keeps m
      → ((e : Raised) → Keeps (h e))
      → Keeps (try_except m h)
  unfolding try_except
  Keeps-try_except {m} k h = record { queue = λ n. queue_handled ((m n).0) ((m n).1) h ∙ k.queue n }

  pub Keeps-if : (b : Bool) {x y : Exec A} → Keeps x → Keeps y → Keeps (if b then x else y)
  Keeps-if true k l = k
  Keeps-if false k l = l

  pub Keeps-option :
      {X : Type 0} (o : Option X) {y : Exec A} {g : X → Exec A}
      → Keeps y
      → ((x : X) → Keeps (g x))
      → Keeps (elim o [ none ↦ y | some x ↦ g x ])
  Keeps-option none k l = k
  Keeps-option (some x) k l = l x

queue_allocated :
    (o : Option Raised) (n : Node)
    → let r : Outcome (Unit {0}) × Node = elim o [ none ↦ (done tt, n) | some e ↦ (raised e, n) ] in
      r.1.received_messages ≡ n.received_messages
queue_allocated none n = refl
queue_allocated (some e) n = refl

pub allocate-Keeps : Keeps allocate
unfolding allocate
allocate-Keeps = record { queue = λ n. queue_allocated (fault_of n.faults) _ }

pub publish-Keeps :
    (topic : String) (payload : Payload) (retain : Bool) → Keeps (publish topic payload retain)
unfolding publish
publish-Keeps topic payload retain =
    Keeps-bind allocate-Keeps λ _. Keeps-bind (record { queue = λ n. refl }) λ _. Keeps-pure _

publish_state-Keeps :
    (config : RuntimeConfig) (channel : SwitchChannelConfig) (state : Bool) (id source : String)
    (topics : List String)
    → Keeps (publish_state config channel state id source topics)
unfolding publish_state
publish_state-Keeps config channel state id source topics =
    Keeps-bind (record { queue = λ n. refl })
      λ _. Keeps-bind (publish-Keeps _ _ _) λ _. Keeps-bind (publish-Keeps _ _ _) λ _. Keeps-pure _

publish_for_channel-Keeps :
    (channel : SwitchChannelConfig) (r : SwitchApplyResult) (id mode : String)
    (errors : List String) (source : String) (include_result : Bool)
    → Keeps (publish_for_channel channel r id mode errors source include_result)
unfolding publish_for_channel
publish_for_channel-Keeps channel r id mode errors source include_result =
    Keeps-bind (record { queue = λ n. refl })
      λ config.
        Keeps-bind
          (Keeps-if include_result (Keeps-bind (publish-Keeps _ _ _) λ _. Keeps-pure _)
            (Keeps-pure _))
          λ topics.
            Keeps-if (is_ready r.phase) (publish_state-Keeps config channel _ id source topics)
              (Keeps-pure _)

publish_switch_result-Keeps :
    (r : SwitchApplyResult) (id mode : String) (errors : List String) (source : String)
    (include_result : Bool)
    → Keeps (publish_switch_result r id mode errors source include_result)
unfolding publish_switch_result
publish_switch_result-Keeps r id mode errors source include_result =
    Keeps-bind (record { queue = λ n. refl })
      λ config.
        Keeps-option _ (Keeps-pure _)
          λ channel. publish_for_channel-Keeps channel r id mode errors source include_result

publish_switch_meta_patch-Keeps :
    (r : SwitchApplyResult) (id source : String) → Keeps (publish_switch_meta_patch r id source)
unfolding publish_switch_meta_patch publish_patch
publish_switch_meta_patch-Keeps r id source =
    Keeps-bind (record { queue = λ n. refl })
      λ config.
        Keeps-if (is_ready r.phase)
          (Keeps-option _ (Keeps-pure _) λ channel.
            Keeps-bind (record { queue = λ n. refl })
              λ _. Keeps-bind (publish-Keeps _ _ _) λ _. Keeps-pure _)
          (Keeps-pure _)

-- The settings' writer leaves the queue alone.
abbrev pub WriterKeeps : Settings → Type 0
WriterKeeps settings =
    (path section key : String) (value : Bool)
    → Keeps (settings.write_toml_scalar path section key value)

module _ (settings : Settings) (writer : WriterKeeps settings) where
  persist_failed-Keeps : (e : Raised) → Keeps (persist_failed e)
  unfolding persist_failed
  persist_failed-Keeps memory = Keeps-pure _
  persist_failed-Keeps pystack = Keeps-pure _
  persist_failed-Keeps failure = Keeps-raise _

  record_state-Keeps :
      (r : SwitchApplyResult) (state : Bool) → Keeps (record_state settings r state)
  unfolding record_state persist_switch_state
  record_state-Keeps r state =
      Keeps-if (is_ready r.phase)
        (Keeps-bind (record { queue = λ n. refl })
          λ _. Keeps-option settings.root (Keeps-pure _) λ root.
            Keeps-bind (Keeps-try_except (writer _ _ _ _) persist_failed-Keeps) λ _. Keeps-pure _)
        (Keeps-pure _)

  command_failed-Keeps :
      (command : SwitchCommand) (topic : String) (p : Progress) (e : Raised)
      → Keeps (command_failed command topic p e)
  unfolding command_failed publish_failed
  command_failed-Keeps command topic p failure = Keeps-raise _
  command_failed-Keeps command topic p memory =
      Keeps-bind (record { queue = λ n. refl })
        λ _. Keeps-bind (publish-Keeps _ _ _) λ _. Keeps-pure _
  command_failed-Keeps command topic p pystack =
      Keeps-bind (record { queue = λ n. refl })
        λ _. Keeps-bind (publish-Keeps _ _ _) λ _. Keeps-pure _

  after_apply-Keeps :
      (command : SwitchCommand) (topic : String) (r : SwitchApplyResult)
      → Keeps (after_apply settings command topic r)
  unfolding after_apply publish_applied publish_command
  after_apply-Keeps command topic r =
      Keeps-otherwise (record_state-Keeps r command.desired_state)
        (command_failed-Keeps command topic _)
        λ (mode, errors).
          Keeps-otherwise
            (Keeps-bind (publish_switch_result-Keeps r _ mode errors _ true)
              λ _. Keeps-bind (publish_switch_meta_patch-Keeps r _ _) λ _. Keeps-pure _)
            (command_failed-Keeps command topic _) λ _. record { queue = λ n. refl }

  apply_state-Keeps :
      (service : SwitchService) (id : String) (state : Bool) → Keeps (apply_state service id state)
  unfolding apply_state
  apply_state-Keeps service id state = record {
    queue = λ n.
        (Keeps-bind allocate-Keeps λ _.
            Keeps-bind (record { queue = λ k. refl })
              λ _. Keeps-bind allocate-Keeps λ _. Keeps-pure _).queue
          n;
  }

  run_switch_command-Keeps :
      (service : SwitchService) (topic : String) (command : SwitchCommand)
      → Keeps (run_switch_command settings service topic command)
  unfolding run_switch_command
  run_switch_command-Keeps service topic command =
      Keeps-bind (record { queue = λ n. refl })
        λ _. Keeps-bind (publish-Keeps _ _ _) λ _.
          Keeps-otherwise (apply_state-Keeps service _ _) (command_failed-Keeps command topic _)
            (after_apply-Keeps command topic)

  run_parsed-Keeps :
      (service : SwitchService) (topic : String) (c : Option SwitchCommand)
      → Keeps (run_parsed settings service topic c)
  run_parsed-Keeps service topic none = Keeps-pure _
  run_parsed-Keeps service topic (some command) = run_switch_command-Keeps service topic command

  parse_failed-Keeps : (topic : String) (e : Raised) → Keeps (parse_failed topic e)
  parse_failed-Keeps topic memory = Keeps-pure _
  parse_failed-Keeps topic pystack = Keeps-raise _
  parse_failed-Keeps topic failure = Keeps-raise _

  pub process_switch_command_message-Keeps :
      (f : Firmware) (service : SwitchService) (topic payload_text : String)
      → Keeps (process_switch_command_message f settings service topic payload_text)
  unfolding process_switch_command_message parse_switch_command
  process_switch_command_message-Keeps f service topic payload_text =
      Keeps-if (is_blank (strip is_space payload_text)) (Keeps-pure _) (
        Keeps-bind (record { queue = λ n. refl })
          λ config.
            Keeps-otherwise
              (Keeps-if
                (is_blank (channel_id_from_topic topic) || is_blank (strip is_space payload_text))
                (Keeps-pure _)
                (Keeps-if
                  (upper_is (strip is_space payload_text) "ON"
                    || upper_is (strip is_space payload_text) "OFF")
                  (Keeps-pure _) (Keeps-bind allocate-Keeps λ _. Keeps-pure _)))
              (parse_failed-Keeps topic) (run_parsed-Keeps service topic))
