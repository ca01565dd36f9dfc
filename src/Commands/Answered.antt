-- ===== src/Commands/Answered.antt =====
-- A switch command to a ready channel is answered.
use Prim.Native.String
use c_py_nodus_ii.Prelude.Text.{strip_right, is_slash}
use c_py_nodus_ii.Prelude.{
  Option-cases, inl, inr, String, Bool, true, ◌≡◌, refl, sym, ap, ◌∙◌, some, List, [], ◌∷◌,
}
use c_py_nodus_ii.Switch.Hardware.{is_ready}
use c_py_nodus_ii.Switch.Config.{SwitchChannelConfig, update_switch_runtime_config}
use c_py_nodus_ii.Switch.Service.{SwitchService, SwitchApplyResult, apply_switch_state}
use c_py_nodus_ii.Commands.{
  published, CommandResult, Node, Outcome, done, raised, current_config, without_first, try_except,
  ◌>>=◌,
}
use c_py_nodus_ii.Commands.Routes.{find_runtime_channel}
use c_py_nodus_ii.Commands.Parse.{SwitchCommand}
use c_py_nodus_ii.Commands.Switch.{mode_of, Settings, persist_switch_state}
use c_py_nodus_ii.Commands.Rules.{
  Ensures, Ensures-bind, Ensures-otherwise, Ensures-if, Ensures-known, Ensures-publish,
}
use c_py_nodus_ii.Commands.Messages.{none_not_some, true_not_false}
use c_py_nodus_ii.Commands.Publishes.{publish_command-Ensures}
use c_py_nodus_ii.Commands.Reported.{apply_state-Ensures}
use c_py_nodus_ii.Commands.SwitchCommand.{
  record_state, publish_applied, after_apply, run_switch_command,
}

-- The writer answers, and leaves the node alone.
abbrev pub Writes : Settings → Type 0
Writes settings =
    (path section key : String) (value : Bool) (n : Node)
    → (errors : List String) × (settings.write_toml_scalar path section key value n
        ≡ (done errors, n))

-- The action returned, and its result is published.
abbrev pub IsPublished : Outcome CommandResult → Type 0
IsPublished (done r) = r.phase ≡ published
IsPublished (raised e) = ⊥

persist_returns :
    (settings : Settings)
    → Writes settings
    → (key : String) (state : Bool) (n : Node)
    → (o : String × List String) × (persist_switch_state settings key state n ≡ (done o, n))
unfolding persist_switch_state ◌>>=◌ try_except
persist_returns settings w key state n = elim (Option-cases settings.root) [
  | inl e ↦ (("volatile", "settings_not_writable" ∷ []), rw e refl)
  | inr (root, e) ↦
      let (errors, h) =
        w (String.◌++◌ (strip_right is_slash root) "/switch.toml") "Switch"
          (String.◌++◌ key "_LAST_STATE") state n in
      ((mode_of errors, errors), rw (e, h) refl)
]

module _ (settings : Settings) (writes : Writes settings) (topic : String)
    (command : SwitchCommand) where
  publish_answered :
      (r : SwitchApplyResult) (mode : String) (errors : List String) (channel : SwitchChannelConfig)
      (k : Node)
      → k.faults ≡ []
      → is_ready r.phase ≡ true
      → find_runtime_channel k.config.switch.channels r.channel_id ≡ some channel
      → Ensures (publish_applied command topic r mode errors) k (λ o _. IsPublished o)
  unfolding publish_applied
  publish_answered r mode errors channel k quiet ok found = Ensures-otherwise (
      publish_command-Ensures command r mode errors k _
        (λ no q z. absurd (none_not_some (sym no ∙ found)))
        (λ _ no. absurd (true_not_false (sym ok ∙ no))) (λ _ _ _. record { ends = refl })
        (λ e k' fault _. absurd (fault quiet)))

  after_apply_answered :
      (r : SwitchApplyResult) (channel : SwitchChannelConfig) (n : Node)
      → n.faults ≡ []
      → is_ready r.phase ≡ true
      → find_runtime_channel
          (update_switch_runtime_config n.config.switch r.key command.desired_state).channels
          r.channel_id
        ≡ some channel
      → Ensures (after_apply settings command topic r) n (λ o _. IsPublished o)
  unfolding after_apply record_state
  after_apply_answered r channel n quiet ok found = Ensures-otherwise (
      Ensures-if (is_ready r.phase)
        (λ _. Ensures-bind (record {
          ends =
              let ((mode, errors), h) =
                persist_returns settings writes r.key command.desired_state _ in
              Ensures-known h (publish_answered r mode errors channel _ quiet ok found);
        }))
        (λ no. absurd (true_not_false (sym ok ∙ no))))

  module _ (service : SwitchService) (n : Node) where
    abbrev applied_to : SwitchApplyResult
    applied_to = (apply_switch_state service command.channel_id "" command.desired_state n.pins).0

    -- No call raises, and the settings' writer answers and leaves the node alone: a command that the
    -- switch service applies, on a channel that the configuration has, is reported as published.
    pub switch_command_answered :
        (channel : SwitchChannelConfig)
        → n.faults ≡ []
        → is_ready applied_to.phase ≡ true
        → find_runtime_channel
            (update_switch_runtime_config n.config.switch applied_to.key
              command.desired_state).channels
            applied_to.channel_id
          ≡ some channel
        → IsPublished ((run_switch_command settings service topic command n).0)
    unfolding run_switch_command
    switch_command_answered channel quiet ok found =
        let emptied = ap without_first quiet in
        (Ensures-bind {m = current_config} {n = n} {Q = λ o _. IsPublished o} (record {
          ends = Ensures-bind (
              Ensures-publish _ _ _
                (Ensures-otherwise (
                  apply_state-Ensures service command.channel_id command.desired_state _ _
                    (after_apply_answered applied_to channel _
                      (ap (λ f. without_first (without_first f)) emptied) ok found)
                    (λ _ fault. absurd (fault emptied)) (λ _ fault. absurd (fault emptied))))
                (λ _ fault. absurd (fault quiet)));
        })).ends
