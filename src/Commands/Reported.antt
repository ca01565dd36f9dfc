-- ===== src/Commands/Reported.antt =====
-- What is claimed of the result of a switch command, and that its failures and its steps up to the
-- pins keep to it.
use c_py_nodus_ii.Prelude.{
  ℕ, ◌+◌, ◌≤◌, String, Bool, true, false, ◌≡◌, ◌≢◌, refl, ap, inl, inr, none, some, List, [], ◌∷◌,
  ◌++◌, arith, Option-cases, length, length-append,
}
use c_py_nodus_ii.Switch.Hardware.{is_ready}
use c_py_nodus_ii.Switch.Config.{SwitchChannelConfig, update_switch_runtime_config}
use c_py_nodus_ii.Switch.Service.{
  SwitchService, SwitchApplyResult, apply_switch_state, apply_to, find_channel, Pins,
}
use c_py_nodus_ii.Commands.{
  RuntimeConfig, PublishedMessage, Phase, published, error, CommandResult, Raised, memory, pystack,
  failure, Node, done, raised, Exec,
}
use c_py_nodus_ii.Commands.Routes.{find_runtime_channel}
use c_py_nodus_ii.Commands.Parse.{SwitchCommand}
use c_py_nodus_ii.Commands.Switch.{Settings, persist_switch_state, persist_failed, apply_state}
use c_py_nodus_ii.Commands.SwitchCommand.{Progress, command_failed, publish_failed}
use c_py_nodus_ii.Commands.Rules.{
  Ends, Ensures, Returns, Ensures-bind, Ensures-pure, Ensures-try_except, Ensures-cases,
  Ensures-option, Ensures-allocate, Ensures-publish, later_faults, spent, Then,
}
use c_py_nodus_ii.Commands.Messages.{
  ack_message, result_message, event_message, state_message, patch_message,
}

-- The settings' writer touches no pin and no configuration, and publishes nothing.
abbrev pub Quiet : Node → Node → Type 0
Quiet n n' =
    (n'.published_messages ≡ n.published_messages) × (n'.config ≡ n.config) × (n'.pins ≡ n.pins)

abbrev pub IsQuiet : Settings → Type 0
IsQuiet settings =
    (path section key : String) (value : Bool) (n : Node)
    → Quiet n ((settings.write_toml_scalar path section key value n).1)

-- The configuration with the state of a channel recorded.
abbrev pub recorded : RuntimeConfig → String → Bool → RuntimeConfig
recorded config key state = record config {
  switch = update_switch_runtime_config config.switch key state;
}

-- The command was applied to the pins, recorded, and announced on the five topics in this order.
pub record Announces (service : SwitchService) (command : SwitchCommand) (n : Node)
    (r : CommandResult) (n' : Node) : Type 0 where
  pub applied : SwitchApplyResult
  pub channel : SwitchChannelConfig
  pub mode : String
  pub errors : List String
  pub now : ℕ
  pub pins_written :
      apply_switch_state service command.channel_id "" command.desired_state n.pins
      ≡ (applied, n'.pins)
  pub is_applied : applied.applied_state ≡ some command.desired_state
  pub is_recorded : n'.config ≡ recorded n.config applied.key command.desired_state
  pub has_channel : find_runtime_channel n'.config.switch.channels applied.channel_id ≡ some channel
  pub messages :
      n'.published_messages
      ≡ n.published_messages
        ++ (ack_message n.config command
            ∷ result_message n'.config channel applied command.message_id mode errors
            ∷ event_message n'.config channel command.desired_state command.message_id none now
            ∷ state_message n'.config channel command.desired_state
            ∷ patch_message n'.config channel command.desired_state command.message_id now
            ∷ [])
  pub count : r.published_count ≡ 5

-- What holds of a result of the command.
abbrev pub Reported : SwitchService → SwitchCommand → Node → CommandResult → Node → Type 0
Reported service command n r n' =
    (length n.published_messages + r.published_count ≤ length n'.published_messages)
    × (r.phase ≡ published → Announces service command n r n')

abbrev pub Q_of : SwitchService → SwitchCommand → Node → Ends CommandResult
Q_of service command n = Returns (Reported service command n)

abbrev is_error : Phase → Bool
is_error error = true
is_error _ = false

pub error_not_published : error ≡ published → ⊥
error_not_published h = ground (arith, ap is_error h)

pub one_more :
    (xs : List PublishedMessage) (m : PublishedMessage) {a b : ℕ}
    → a ≤ length xs
    → b ≤ a + 1
    → b ≤ length (xs ++ m ∷ [])
one_more xs m h k = omega (arith, h, k, length-append xs (m ∷ []))

pub five :
    (xs : List PublishedMessage) (a b c d e : PublishedMessage)
    → ((((xs ++ a ∷ []) ++ b ∷ []) ++ c ∷ []) ++ d ∷ []) ++ e ∷ [] ≡ xs ++ a ∷ b ∷ c ∷ d ∷ e ∷ []
five [] a b c d e = refl
five (x ∷ xs) a b c d e = ap (λ r. x ∷ r) (five xs a b c d e)

module _ (service : SwitchService) (command : SwitchCommand) (topic : String) (n : Node) where
  publish_failed-Ensures :
      (p : Progress) (e : Raised) (k : Node)
      → length n.published_messages + 1 ≤ length k.published_messages
      → Ensures (publish_failed command topic p e) k (Q_of service command n)
  unfolding publish_failed
  publish_failed-Ensures p e k h = Ensures-bind (record {
    ends = Ensures-bind (
        Ensures-publish _ _ _
          (Ensures-pure
            (one_more k.published_messages _ h (omega arith), λ q. absurd (error_not_published q)))
          (λ _ _. tt));
  })

  pub command_failed-Ensures :
      (p : Progress) (e : Raised) (k : Node)
      → length n.published_messages + 1 ≤ length k.published_messages
      → Ensures (command_failed command topic p e) k (Q_of service command n)
  unfolding command_failed
  command_failed-Ensures p memory k h = publish_failed-Ensures p memory k h
  command_failed-Ensures p pystack k h = publish_failed-Ensures p pystack k h
  command_failed-Ensures p failure k h = record { ends = tt }

module _ (settings : Settings) (quiet : IsQuiet settings) where
  written :
      (path section key : String) (state : Bool) (k : Node)
      → Ensures (settings.write_toml_scalar path section key state) k (λ _ k'. Quiet k k')
  written path section key state k = record { ends = quiet path section key state k }

  persist_failed-Ensures :
      {B : Type 0} {f : List String → Exec B} (k : Node) (e : Raised) (k' : Node)
      → Quiet k k'
      → ((v : List String) → Ensures (f v) k' (λ _ l. Quiet k l))
      → Ensures (persist_failed e) k' (Then f (λ _ l. Quiet k l))
  unfolding persist_failed
  persist_failed-Ensures k memory k' h f = Ensures-pure (f _)
  persist_failed-Ensures k pystack k' h f = Ensures-pure (f _)
  persist_failed-Ensures k failure k' h f = record { ends = h }

  pub persist-Ensures :
      (key : String) (state : Bool) (k : Node)
      → Ensures (persist_switch_state settings key state) k (λ _ k'. Quiet k k')
  unfolding persist_switch_state
  persist-Ensures key state k =
      Ensures-option settings.root (λ _. Ensures-pure (refl, refl, refl))
        (λ root _. Ensures-bind (
          Ensures-try_except (
            Ensures-cases (written _ _ _ _ k) (λ _ k' h. Ensures-pure h)
              (λ e k' h. persist_failed-Ensures k e k' h λ _. Ensures-pure h))))

pub apply_state-Ensures :
    (service : SwitchService) (channel_id : String) (state : Bool) (k : Node)
    (Q : Ends SwitchApplyResult)
    → let (r, pins) = apply_switch_state service channel_id "" state k.pins in
      Q (done r) (spent (record (spent k) { pins = pins }))
      → ((e : Raised) → k.faults ≢ [] → Q (raised e) (spent k))
      → ((e : Raised)
          → k.faults ≢ []
          → let (r, pins) = apply_switch_state service channel_id "" state k.pins in
            Q (raised e) (spent (record (spent k) { pins = pins })))
      → Ensures (apply_state service channel_id state) k Q
unfolding apply_state
apply_state-Ensures service channel_id state k Q q before after = record {
  ends =
      (Ensures-bind {Q = Q} (
        Ensures-allocate {n = k}
          (Ensures-bind (record {
            ends =
                Ensures-bind
                  (Ensures-allocate (Ensures-pure q) (λ e f. after e (later_faults k.faults f)));
          }))
          before)).ends;
}

-- A command that ends ready reports the state that it was given.
pub ready_applied :
    (service : SwitchService) (id : String) (state : Bool) (pins : Pins)
    → is_ready ((apply_switch_state service id "" state pins).0).phase ≡ true
    → ((apply_switch_state service id "" state pins).0).applied_state ≡ some state
unfolding apply_switch_state apply_to
ready_applied service id state pins h = elim (Option-cases (find_channel id "" service.channels)) [
  | inl e ↦ ground (arith, h)
  | inr (c, e) ↦ ground (arith, h)
]
