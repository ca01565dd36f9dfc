-- ===== src/Commands/Verdicts.antt =====
-- What each verdict of the intake on a message says of the queue.
use c_py_nodus_ii.Prelude.{
  ℕ, String, true, ◌≡◌, refl, sym, ap, subst, ◌∙◌, inl, inr, Bool-cases, Option, none, some, List,
  [], ◌∷◌, ◌++◌, if◌then◌else◌,
}
use c_py_nodus_ii.LogTransfer.Messages.{append-nil}
use c_py_nodus_ii.Switch.Service.{SwitchService}
use c_py_nodus_ii.Commands.{
  ReceivedMessage, RuntimeConfig, CommandResult, Raised, memory, pystack, failure, Node, pure,
  ◌>>=◌, ◌>>◌, done, raised, Exec,
}
use c_py_nodus_ii.Commands.Routes.{
  is_switch_command_topic, is_device_config_topic, is_sensor_calibration_topic,
}
use c_py_nodus_ii.Commands.Parse.{Firmware}
use c_py_nodus_ii.Commands.Switch.{Settings}
use c_py_nodus_ii.Commands.Minimal.{
  unpublished, FailureKind, publish_minimal_failure, payload_may_apply_calibration,
  payload_may_apply_calibration_offsets,
}
use c_py_nodus_ii.Commands.Intake.{
  Handlers, adopted, is_empty_payload, Verdict, next, halted, stopped, handed, adopt,
  restore_received_messages, failed, take_device_config, stop_with, take_control, take_apply,
  take_offsets, take_calibration, take_switch, take_message,
}
use c_py_nodus_ii.Commands.Rules.{
  Ends, Ensures, Returns, Ensures-bind, Ensures-otherwise, Ensures-pure, Ensures-cases, Ensures-if,
  Ensures-option,
}
use c_py_nodus_ii.Commands.Queue.{
  Keeps, Keeps-bind, Keeps-otherwise, Keeps-pure, Keeps-raise, Keeps-try_except, Keeps-if,
  publish-Keeps, WriterKeeps, process_switch_command_message-Keeps,
}

pub record HandlersKeep (h : Handlers) : Type 0 where
  pub device_config : (m : ReceivedMessage) → Keeps (h.device_config m)
  pub calibration_offsets : (m : ReceivedMessage) → Keeps (h.calibration_offsets m)
  pub calibration_apply : (m : ReceivedMessage) → Keeps (h.calibration_apply m)
  pub calibration_control : (m : ReceivedMessage) → Keeps (h.calibration_control m)

-- What a verdict on a message says of the queue.
abbrev pub AfterVerdict : ReceivedMessage → List ReceivedMessage → Verdict → Node → Type 0
AfterVerdict m later (next none) n = (n.received_messages ≡ []) × (is_empty_payload m ≡ true)
AfterVerdict m later (next (some r)) n = n.received_messages ≡ []
AfterVerdict m later (halted r) n = r.halt_requested ≡ true
AfterVerdict m later (stopped r) n = n.received_messages ≡ later
AfterVerdict m later handed n = n.received_messages ≡ m ∷ later

abbrev pub V_of : ReceivedMessage → List ReceivedMessage → Ends Verdict
V_of m later = Returns (AfterVerdict m later)

adopt-Keeps : (o : Option RuntimeConfig) → Keeps (adopt o)
unfolding adopt
adopt-Keeps none = Keeps-pure _
adopt-Keeps (some c) = record { queue = λ n. refl }

unpublished-Keeps :
    (kind : FailureKind) (c : RuntimeConfig) (m : ReceivedMessage) (why : String) (count : ℕ)
    (e : Raised)
    → Keeps (unpublished kind c m why count e)
unpublished-Keeps kind c m why count memory = Keeps-pure _
unpublished-Keeps kind c m why count pystack = Keeps-raise _
unpublished-Keeps kind c m why count failure = Keeps-raise _

publish_minimal_failure-Keeps :
    (kind : FailureKind) (m : ReceivedMessage) (why : String)
    → Keeps (publish_minimal_failure kind m why)
unfolding publish_minimal_failure
publish_minimal_failure-Keeps kind m why =
    Keeps-bind (record { queue = λ n. refl })
      λ c. Keeps-if _ (Keeps-pure _) (
        Keeps-otherwise (publish-Keeps _ _ _) (unpublished-Keeps kind c m why 0) λ _.
          Keeps-otherwise (publish-Keeps _ _ _) (unpublished-Keeps kind c m why 1)
            λ _. Keeps-pure _)

failed-Keeps :
    (kind : FailureKind) (m : ReceivedMessage) (a b : String) (e : Raised)
    → Keeps (failed kind m a b e)
unfolding failed
failed-Keeps kind m a b memory = publish_minimal_failure-Keeps kind m a
failed-Keeps kind m a b pystack = publish_minimal_failure-Keeps kind m b
failed-Keeps kind m a b failure = Keeps-raise _

Ensures-keeps :
    {A : Type 0} {m : Exec A} {n : Node} {Q : Ends A}
    → Keeps m
    → n.received_messages ≡ []
    → ((a : A) (n' : Node) → n'.received_messages ≡ [] → Q (done a) n')
    → ((e : Raised) (n' : Node) → n'.received_messages ≡ [] → Q (raised e) n')
    → Ensures m n Q
Ensures-keeps {n = n} k empty d r =
    Ensures-cases {P = λ _ n'. n'.received_messages ≡ []} (record { ends = k.queue n ∙ empty }) d r

module _ (h : Handlers) (keep : HandlersKeep h) (m : ReceivedMessage)
    (later : List ReceivedMessage) where
  halted_or_next :
      (r : CommandResult) (n : Node)
      → n.received_messages ≡ []
      → AfterVerdict m later (if r.halt_requested then halted r else next (some r)) n
  halted_or_next r n empty = elim (Bool-cases r.halt_requested) [
    | inl e ↦ subst (λ b. AfterVerdict m later (if b then halted r else next (some r)) n) (sym e) e
    | inr e ↦
        subst (λ b. AfterVerdict m later (if b then halted r else next (some r)) n) (sym e) empty
  ]

  take_device_config-Ensures :
      (n : Node) → n.received_messages ≡ [] → Ensures (take_device_config h m) n (V_of m later)
  unfolding take_device_config
  take_device_config-Ensures n empty = Ensures-bind (
      Ensures-keeps (Keeps-try_except (keep.device_config m) (failed-Keeps _ m _ _)) empty
        (λ r n' e. Ensures-bind (
          Ensures-keeps (adopt-Keeps r.runtime_config) e
            (λ _ n'' e'. Ensures-pure (halted_or_next r n'' e')) (λ _ _ _. tt)))
        (λ _ _ _. tt))

  take_control-Ensures :
      (n : Node) → n.received_messages ≡ [] → Ensures (take_control h m) n (V_of m later)
  unfolding take_control
  take_control-Ensures n empty = Ensures-bind (
      Ensures-keeps (Keeps-try_except (keep.calibration_control m) (failed-Keeps _ m _ _)) empty
        (λ r n' e. Ensures-pure e) (λ _ _ _. tt))

  adopted-Ensures :
      (r : CommandResult) (n : Node)
      → n.received_messages ≡ []
      → Ensures (adopted r) n (V_of m later)
  adopted-Ensures r n empty =
      Ensures-bind (
        Ensures-keeps (adopt-Keeps r.runtime_config) empty (λ _ n' e. Ensures-pure e) (λ _ _ _. tt))

  stopped-Ensures :
      (a b : String) (e : Raised) (n : Node)
      → n.received_messages ≡ []
      → Ensures
          (do
            restore_received_messages later
            r ← failed FailureKind.calibration m a b e
            pure (stopped r))
          n
          (V_of m later)
  unfolding restore_received_messages
  stopped-Ensures a b e n empty = Ensures-bind (record {
    ends = Ensures-bind (
        Ensures-cases {P = λ _ n'. n'.received_messages ≡ later}
          (record {
            ends = (failed-Keeps _ m a b e).queue _ ∙ ap (λ q. later ++ q) empty ∙ append-nil later;
          })
          (λ r n' q. Ensures-pure q) (λ _ _ _. tt));
  })

  stop_with-Ensures :
      (a b : String) (e : Raised) (n : Node)
      → n.received_messages ≡ []
      → Ensures (stop_with m later a b e) n (V_of m later)
  unfolding stop_with
  stop_with-Ensures a b failure n empty = record { ends = tt }
  stop_with-Ensures a b memory n empty = stopped-Ensures a b memory n empty
  stop_with-Ensures a b pystack n empty = stopped-Ensures a b pystack n empty

  take_apply-Ensures :
      (n : Node) → n.received_messages ≡ [] → Ensures (take_apply h m later) n (V_of m later)
  unfolding take_apply
  take_apply-Ensures n empty = Ensures-otherwise (
      Ensures-keeps (keep.calibration_apply m) empty
        (λ o n' e.
          Ensures-option o (λ _. take_control-Ensures n' e) (λ r _. adopted-Ensures r n' e))
        (λ e n' q. stop_with-Ensures _ _ e n' q))

  take_offsets-Ensures :
      (n : Node) → n.received_messages ≡ [] → Ensures (take_offsets h m later) n (V_of m later)
  unfolding take_offsets
  take_offsets-Ensures n empty = Ensures-otherwise (
      Ensures-keeps (keep.calibration_offsets m) empty
        (λ o n' e. Ensures-option o (λ _. take_apply-Ensures n' e) (λ r _. adopted-Ensures r n' e))
        (λ e n' q. stop_with-Ensures _ _ e n' q))

  take_calibration-Ensures :
      (n : Node) → n.received_messages ≡ [] → Ensures (take_calibration h m later) n (V_of m later)
  unfolding take_calibration
  take_calibration-Ensures n empty =
      Ensures-if (is_empty_payload m) (λ blank. Ensures-pure (empty, blank))
        (λ _.
          Ensures-if (payload_may_apply_calibration m.payload_text)
            (λ _.
              Ensures-if (payload_may_apply_calibration_offsets m.payload_text)
                (λ _. take_offsets-Ensures n empty) (λ _. take_apply-Ensures n empty))
            (λ _. take_control-Ensures n empty))

module _ (f : Firmware) (settings : Settings) (writer : WriterKeeps settings)
    (service : SwitchService) (h : Handlers) (keep : HandlersKeep h) (m : ReceivedMessage)
    (later : List ReceivedMessage) where
  take_switch-Ensures :
      (n : Node)
      → n.received_messages ≡ []
      → Ensures (take_switch f settings service m) n (V_of m later)
  unfolding take_switch
  take_switch-Ensures n empty = Ensures-bind (
      Ensures-keeps (process_switch_command_message-Keeps settings writer f service _ _) empty
        (λ r n' e. adopted-Ensures h keep m later r n' e) (λ _ _ _. tt))

  pub take_message-Ensures :
      (n : Node)
      → n.received_messages ≡ []
      → Ensures (take_message f settings service h m later) n (V_of m later)
  unfolding take_message restore_received_messages
  take_message-Ensures n empty = Ensures-bind (record {
    ends =
        Ensures-if (is_switch_command_topic m.topic n.config) (λ _. take_switch-Ensures n empty)
          (λ _.
            Ensures-if (is_device_config_topic m.topic n.config)
              (λ _.
                Ensures-if (is_empty_payload m) (λ blank. Ensures-pure (empty, blank))
                  (λ _. take_device_config-Ensures h keep m later n empty))
              (λ _.
                Ensures-if (is_sensor_calibration_topic m.topic n.config)
                  (λ _. take_calibration-Ensures h keep m later n empty)
                  (λ _. Ensures-bind (record {
                    ends = Ensures-pure (ap (λ q. (m ∷ later) ++ q) empty ∙ append-nil (m ∷ later));
                  }))));
  })
