-- ===== src/Commands/Publishes.antt =====
-- The publications of a switch command, step by step: what each step leaves behind where it returns,
-- and where it raises.
use c_py_nodus_ii.Prelude.{
  String, true, false, ◌≡◌, refl, sym, subst, ◌∙◌, none, some, List, [], ◌∷◌,
}
use c_py_nodus_ii.Switch.Hardware.{is_ready}
use c_py_nodus_ii.Switch.Config.{SwitchChannelConfig}
use c_py_nodus_ii.Switch.Service.{SwitchApplyResult}
use c_py_nodus_ii.Commands.{PublishedMessage, Node, done}
use c_py_nodus_ii.Commands.Routes.{find_runtime_channel}
use c_py_nodus_ii.Commands.Parse.{SwitchCommand}
use c_py_nodus_ii.Commands.Switch.{
  PublishResult, is_true, publish_patch, publish_for_channel, publish_switch_result,
  publish_switch_meta_patch, no_channel,
}
use c_py_nodus_ii.Commands.SwitchCommand.{publish_command}
use c_py_nodus_ii.Commands.Rules.{
  Ends, Ensures, Ensures-bind, Ensures-pure, Ensures-if, Ensures-option, Ensures-publish, posted,
  Raising, Raising-spent, Raising-posted,
}
use c_py_nodus_ii.Commands.Messages.{
  publish_state-Ensures, publish_switch_meta_patch-Ensures, some_injective, none_not_some,
  true_not_false, state_published, refused, not_patched, patched, result_message, event_message,
  state_message, patch_message,
}

module _ (command : SwitchCommand) (r : SwitchApplyResult) (mode : String) (errors : List String)
    (n : Node) where
  abbrev pub own_result : SwitchChannelConfig → PublishedMessage
  own_result channel = result_message n.config channel r command.message_id mode errors

  abbrev pub own_event : SwitchChannelConfig → PublishedMessage
  own_event channel =
      event_message n.config channel (is_true r.applied_state) command.message_id none n.now

  abbrev pub own_state : SwitchChannelConfig → PublishedMessage
  own_state channel = state_message n.config channel (is_true r.applied_state)

  abbrev pub own_patch : SwitchChannelConfig → PublishedMessage
  own_patch channel =
      patch_message n.config channel (is_true r.applied_state) command.message_id n.now

  abbrev pub announced : SwitchChannelConfig → Node
  announced channel =
      posted (posted (posted n (own_result channel)) (own_event channel)) (own_state channel)

  Raising-announced :
      {A : Type 0} (Q : Ends A)
      → Raising Q n
      → (channel : SwitchChannelConfig) → Raising Q (announced channel)
  Raising-announced Q raising channel =
      let n1 = posted n (own_result channel) in
      let n2 = posted n1 (own_event channel) in
      Raising-posted Q n2
        (Raising-posted Q n1 (Raising-posted Q n raising (own_result channel)) (own_event channel))
        (own_state channel)

  publish_for_channel-Ensures :
      (channel : SwitchChannelConfig) (Q : Ends PublishResult)
      → (is_ready r.phase ≡ true
          → Q
              (done (
                state_published
                  ((own_result channel).topic ∷ [])
                  (own_event channel)
                  (own_state channel)))
              (announced channel))
      → (is_ready r.phase ≡ false
          → Q (done (refused r (own_result channel))) (posted n (own_result channel)))
      → Raising Q n
      → Ensures (publish_for_channel channel r command.message_id mode errors "" true) n Q
  unfolding publish_for_channel
  publish_for_channel-Ensures channel Q ready refuse raising =
      let rest = Raising-posted Q n raising (own_result channel) in
      Ensures-bind (record {
        ends = Ensures-bind (
            Ensures-bind (
              Ensures-publish _ _ _
                (Ensures-pure (
                  Ensures-if (is_ready r.phase)
                    (λ e.
                      publish_state-Ensures _ _ _ _ "" _ (posted n (own_result channel)) Q (ready e)
                        rest)
                    (λ e. Ensures-pure (refuse e))))
                (Raising-spent Q n raising)));
      })

  -- The two publications of a command end in one of three ways.
  module _ (Q : Ends (PublishResult × PublishResult)) where
    abbrev pub WhenMissing : Type 0
    WhenMissing =
        find_runtime_channel n.config.switch.channels r.channel_id ≡ none
        → (m : PublishResult) → m.published_count ≡ 0
        → Q (done (no_channel, m)) n

    abbrev pub WhenRefused : Type 0
    WhenRefused =
        (channel : SwitchChannelConfig)
        → is_ready r.phase ≡ false
        → Q (done (refused r (own_result channel), not_patched r)) (posted n (own_result channel))

    abbrev pub WhenReady : Type 0
    WhenReady =
        (channel : SwitchChannelConfig)
        → find_runtime_channel n.config.switch.channels r.channel_id ≡ some channel
        → is_ready r.phase ≡ true
        → Q
            (done (
              state_published ((own_result channel).topic ∷ []) (own_event channel)
                  (own_state channel),
              patched n.config,
            ))
            (posted (announced channel) (own_patch channel))

    pub publish_command-Ensures :
        WhenMissing
        → WhenRefused
        → WhenReady
        → Raising Q n
        → Ensures (publish_command command r mode errors) n Q
    unfolding publish_command publish_switch_result publish_switch_meta_patch publish_patch
    publish_command-Ensures missing refuse ready raising = Ensures-bind (
        Ensures-bind (record {
          ends =
              Ensures-option (find_runtime_channel n.config.switch.channels r.channel_id)
                (λ e. Ensures-pure (
                  Ensures-bind (
                    publish_switch_meta_patch-Ensures command.message_id r n _
                      (λ _. Ensures-pure (missing e no_channel refl))
                      (λ _. Ensures-pure (missing e (not_patched r) refl))
                      (λ channel f _. absurd (none_not_some (sym e ∙ f))) raising)))
                (λ channel e.
                  publish_for_channel-Ensures channel _
                    (λ ok. Ensures-bind (
                      publish_switch_meta_patch-Ensures command.message_id r (announced channel) _
                        (λ f. absurd (none_not_some (sym f ∙ e)))
                        (λ no. absurd (true_not_false (sym ok ∙ no)))
                        (λ channel' f _. Ensures-pure (ready' channel channel' e f ok))
                        (Raising-announced Q raising channel)))
                    (λ no. Ensures-bind (
                      publish_switch_meta_patch-Ensures command.message_id r
                        (posted n (own_result channel)) _ (λ f. absurd (none_not_some (sym f ∙ e)))
                        (λ _. Ensures-pure (refuse channel no))
                        (λ channel' f ok. absurd (true_not_false (sym ok ∙ no)))
                        (Raising-posted Q n raising (own_result channel))))
                    raising);
        }))
      where
        ready' :
            (channel channel' : SwitchChannelConfig)
            → find_runtime_channel n.config.switch.channels r.channel_id ≡ some channel
            → find_runtime_channel n.config.switch.channels r.channel_id ≡ some channel'
            → is_ready r.phase ≡ true
            → Q
                (done (
                  state_published
                      ((own_result channel).topic ∷ [])
                      (own_event channel)
                      (own_state channel),
                  patched n.config,
                ))
                (posted (announced channel) (own_patch channel'))
        ready' channel channel' e f ok =
            subst
              (λ c.
                Q
                  (done (
                    state_published ((own_result channel).topic ∷ []) (own_event channel)
                        (own_state channel),
                    patched n.config,
                  ))
                  (posted (announced channel) (own_patch c)))
              (some_injective (sym e ∙ f)) (ready channel e ok)
