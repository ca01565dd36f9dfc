-- ===== src/Commands/Announced.antt =====
-- What a switch command has published, driven and recorded when the intake reports it, and that no
-- result counts a message that was not published.
use c_py_nodus_ii.Prelude.{
  ◌+◌, ◌≤◌, String, Bool, true, false, ◌||◌, ◌≡◌, ◌⊎◌, refl, sym, ap, subst, inl, inr, Option, none,
  some, arith, length,
}
use c_py_nodus_ii.Switch.Service.{SwitchService}
use c_py_nodus_ii.Commands.{
  RuntimeConfig, Phase, published, ignored, CommandResult, Raised, memory, pystack, failure, Node,
  done,
}
use c_py_nodus_ii.Commands.Routes.{channel_id_from_topic}
use c_py_nodus_ii.Prelude.Text.{is_blank, is_space, strip}
use c_py_nodus_ii.Prelude.Text.{upper_is}
use c_py_nodus_ii.Commands.Parse.{Firmware, SwitchCommand, parse_switch_command}
use c_py_nodus_ii.Commands.Switch.{Settings}
use c_py_nodus_ii.Commands.SwitchCommand.{
  run_switch_command, run_parsed, parse_failed, process_switch_command_message,
}
use c_py_nodus_ii.Commands.Rules.{
  Ensures, Returns, Ensures-bind, Ensures-otherwise, Ensures-pure, Ensures-cases, Ensures-if,
  Ensures-allocate, Ensures-and, returned, spent,
}
use c_py_nodus_ii.Commands.Reported.{IsQuiet, Announces, Q_of, error_not_published}
use c_py_nodus_ii.Commands.Applied.{run_switch_command-Ensures}

abbrev is_ignored : Phase → Bool
is_ignored ignored = true
is_ignored _ = false

-- The node, or the node after a call that took memory.
abbrev Same : Node → Node → Type 0
Same n n' = (n' ≡ n) ⊎ (n' ≡ spent n)

published_le :
    {n k : Node} → Same n k → length n.published_messages + 0 ≤ length k.published_messages
published_le {n} {k} (inl e) =
    subst (λ l. length n.published_messages + 0 ≤ length l.published_messages) (sym e) (omega arith)
published_le {n} {k} (inr e) =
    subst (λ l. length n.published_messages + 0 ≤ length l.published_messages) (sym e) (omega arith)

from_spent :
    (service : SwitchService) (command : SwitchCommand) (n : Node) (r : CommandResult) (n' : Node)
    → Announces service command (spent n) r n'
    → Announces service command n r n'
from_spent service command n r n' a = record {
  applied = a.applied;
  channel = a.channel;
  mode = a.mode;
  errors = a.errors;
  now = a.now;
  pins_written = a.pins_written;
  is_applied = a.is_applied;
  is_recorded = a.is_recorded;
  has_channel = a.has_channel;
  messages = a.messages;
  count = a.count;
}

ignored_not_published : ignored ≡ published → ⊥
ignored_not_published h = ground (arith, ap is_ignored h)

module _ (f : Firmware) (settings : Settings) (service : SwitchService)
    (topic payload_text : String) (n : Node) where
  parse-Ensures :
      (config : RuntimeConfig)
      → Ensures (parse_switch_command f topic payload_text config) n (λ _ n'. Same n n')
  unfolding parse_switch_command
  parse-Ensures config =
      Ensures-if (is_blank (channel_id_from_topic topic) || is_blank (strip is_space payload_text))
        (λ _. Ensures-pure (inl refl))
        (λ _.
          Ensures-if
            (upper_is (strip is_space payload_text) "ON"
              || upper_is (strip is_space payload_text) "OFF")
            (λ _. Ensures-pure (inl refl))
            (λ _. Ensures-bind (Ensures-allocate (Ensures-pure (inr refl)) (λ _ _. inr refl))))

  -- What holds of a result of the message.
  abbrev Whole : CommandResult → Node → Type 0
  Whole r n' =
      (length n.published_messages + r.published_count ≤ length n'.published_messages)
      × (r.phase ≡ published
          → (command : SwitchCommand) × ((parse_switch_command f topic payload_text n.config n).0
              ≡ done (some command))
            × Announces service command n r n')

  run_parsed-Ensures :
      IsQuiet settings
      → (c : Option SwitchCommand) (k : Node) → Same n k
      → (parse_switch_command f topic payload_text n.config n).0 ≡ done c
      → Ensures (run_parsed settings service topic c) k (Returns Whole)
  run_parsed-Ensures quiet none k same o =
      Ensures-pure (published_le same, λ q. absurd (error_not_published q))
  run_parsed-Ensures quiet (some command) k same o =
      Ensures-cases (run_same command) (λ r n' (count, a). (count, λ q. (command, o, a q)))
        (λ e n' h. tt)
    where
      run_same :
          (command : SwitchCommand)
          → Ensures (run_switch_command settings service topic command) k (Q_of service command n)
      run_same command = elim same [
        | inl e ↦
            subst
              (λ l.
                Ensures (run_switch_command settings service topic command) l
                  (Q_of service command n))
              (sym e) (run_switch_command-Ensures service command topic n settings quiet)
        | inr e ↦
            subst
              (λ l.
                Ensures (run_switch_command settings service topic command) l
                  (Q_of service command n))
              (sym e)
              (Ensures-cases
                (run_switch_command-Ensures service command topic (spent n) settings quiet)
                (λ r n' (count, a). (count, λ q. from_spent service command n r n' (a q)))
                (λ _ _ h. tt))
      ]

  parse_failed-Ensures :
      (e : Raised) (k : Node) → Same n k → Ensures (parse_failed topic e) k (Returns Whole)
  parse_failed-Ensures memory k same =
      Ensures-pure (published_le same, λ q. absurd (error_not_published q))
  parse_failed-Ensures pystack k same = record { ends = tt }
  parse_failed-Ensures failure k same = record { ends = tt }

  process_switch_command_message-Ensures :
      IsQuiet settings
      → Ensures
          (process_switch_command_message f settings service topic payload_text)
          n
          (Returns Whole)
  unfolding process_switch_command_message
  process_switch_command_message-Ensures quiet =
      Ensures-if (is_blank (strip is_space payload_text))
        (λ _. record { ends = (omega arith, λ q. absurd (ignored_not_published q)) })
        (λ _. Ensures-bind (record {
          ends = Ensures-otherwise (
              Ensures-cases (Ensures-and (parse-Ensures n.config))
                (λ c k (same, o). run_parsed-Ensures quiet c k same o)
                (λ e k (same, o). parse_failed-Ensures e k same));
        }))

  -- The settings' writer publishes nothing, drives no pin and leaves the configuration alone;
  -- whichever calls raise: where the intake reports a switch command as published, the message held
  -- that command, the command's state was written to the pins of the channel and is recorded in the
  -- configuration, and exactly the acknowledgement, the result, the event, the state for the broker
  -- to retain and the meta patch were published, in this order and with the state asked for.
  pub switch_command_announced :
      (r : CommandResult) (n' : Node)
      → IsQuiet settings
      → process_switch_command_message f settings service topic payload_text n ≡ (done r, n')
      → r.phase ≡ published
      → (command : SwitchCommand) × ((parse_switch_command f topic payload_text n.config n).0
          ≡ done (some command))
        × Announces service command n r n'
  switch_command_announced r n' quiet e q =
      (returned (process_switch_command_message-Ensures quiet) e).1 q

  -- The settings' writer publishes nothing, drives no pin and leaves the configuration alone: a
  -- result of a switch command, on every path, counts no more messages than were published.
  pub switch_command-count_le :
      (r : CommandResult) (n' : Node)
      → IsQuiet settings
      → process_switch_command_message f settings service topic payload_text n ≡ (done r, n')
      → length n.published_messages + r.published_count ≤ length n'.published_messages
  switch_command-count_le r n' quiet e =
      (returned (process_switch_command_message-Ensures quiet) e).0
