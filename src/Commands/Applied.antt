-- ===== src/Commands/Applied.antt =====
-- A switch command from its acknowledgement on keeps to what is claimed of its result.
use c_py_nodus_ii.Prelude.{
  ℕ, ◌+◌, ◌≤◌, String, Bool, true, ◌≡◌, refl, sym, ap, subst, ◌∙◌, none, some, List, [], ◌∷◌, ◌++◌,
  arith, length, length-append,
}
use c_py_nodus_ii.Switch.Hardware.{is_ready}
use c_py_nodus_ii.Switch.Config.{SwitchChannelConfig}
use c_py_nodus_ii.Switch.Service.{SwitchService, SwitchApplyResult, apply_switch_state, Pins}
use c_py_nodus_ii.Commands.{RuntimeConfig, PublishedMessage, Raised, Node}
use c_py_nodus_ii.Commands.Parse.{SwitchCommand}
use c_py_nodus_ii.Commands.Switch.{Settings, is_true}
use c_py_nodus_ii.Commands.SwitchCommand.{
  record_state, publish_applied, after_apply, run_switch_command, nothing_applied,
}
use c_py_nodus_ii.Commands.Rules.{
  Ensures, Ensures-bind, Ensures-otherwise, Ensures-pure, Ensures-cases, Ensures-if,
  Ensures-publish, posted,
}
use c_py_nodus_ii.Commands.Messages.{
  ack_message, result_message, event_message, state_message, patch_message, true_not_false,
}
use c_py_nodus_ii.Commands.Publishes.{
  publish_command-Ensures, announced, own_result, own_event, own_state, own_patch,
}
use c_py_nodus_ii.Commands.Reported.{
  IsQuiet, recorded, Q_of, error_not_published, one_more, five, command_failed-Ensures,
  persist-Ensures, ready_applied, apply_state-Ensures,
}

-- What `after_apply` begins from: the acknowledgement is published and the pins are written.
record Applied (service : SwitchService) (command : SwitchCommand) (n : Node)
    (r : SwitchApplyResult) (k : Node) : Type 0 where
  messages : k.published_messages ≡ n.published_messages ++ ack_message n.config command ∷ []
  config : k.config ≡ n.config
  pins : apply_switch_state service command.channel_id "" command.desired_state n.pins ≡ (r, k.pins)

module _ (service : SwitchService) (command : SwitchCommand) (topic : String) (n : Node)
    (settings : Settings) (quiet : IsQuiet settings) where
  acked :
      (k k' : Node)
      → k.published_messages ≡ n.published_messages ++ ack_message n.config command ∷ []
      → k'.published_messages ≡ k.published_messages
      → length n.published_messages + 1 ≤ length k'.published_messages
  acked k k' e h =
      subst (λ l. length n.published_messages + 1 ≤ length l) (sym (h ∙ e))
        (omega (arith, length-append n.published_messages (ack_message n.config command ∷ [])))

  -- The five messages, the state given.
  abbrev announcement :
      RuntimeConfig
      → SwitchChannelConfig
      → SwitchApplyResult
      → String
      → List String
      → ℕ
      → Bool
      → List PublishedMessage
  announcement config channel r mode errors now state =
      ack_message n.config command
      ∷ result_message config channel r command.message_id mode errors
      ∷ event_message config channel state command.message_id none now
      ∷ state_message config channel state
      ∷ patch_message config channel state command.message_id now
      ∷ []

  applied_state_of :
      (r : SwitchApplyResult) (pins pins' : Pins)
      → apply_switch_state service command.channel_id "" command.desired_state pins ≡ (r, pins')
      → is_ready r.phase ≡ true
      → r.applied_state ≡ some command.desired_state
  applied_state_of r pins pins' e ok =
      subst (λ q. is_ready q.phase ≡ true → q.applied_state ≡ some command.desired_state)
        (ap (λ q. q.0) e) (ready_applied service command.channel_id command.desired_state pins) ok

  module _ (r : SwitchApplyResult) (mode : String) (errors : List String) (k : Node)
      (m : k.published_messages ≡ n.published_messages ++ ack_message n.config command ∷ [])
      (p : apply_switch_state service command.channel_id "" command.desired_state n.pins
        ≡ (r, k.pins)) where
    announced_messages :
        (channel : SwitchChannelConfig)
        → is_ready r.phase ≡ true
        → (posted
            (announced command r mode errors k channel)
            (own_patch command r mode errors k channel)).published_messages
          ≡ n.published_messages
            ++ announcement k.config channel r mode errors k.now command.desired_state
    announced_messages channel ok =
        subst
          (λ b.
            (posted (announced command r mode errors k channel)
              (own_patch command r mode errors k channel)).published_messages
            ≡ n.published_messages ++ announcement k.config channel r mode errors k.now b)
          (ap is_true (applied_state_of r n.pins k.pins p ok))
          (ap
              (λ l.
                (((l ++ own_result command r mode errors k channel ∷ [])
                    ++ own_event command r mode errors k channel ∷ [])
                  ++ own_state command r mode errors k channel ∷ [])
                ++ own_patch command r mode errors k channel ∷ [])
              m
            ∙ five n.published_messages _ _ _ _ _)

    publish_applied-Ensures :
        (is_ready r.phase ≡ true → k.config ≡ recorded n.config r.key command.desired_state)
        → Ensures (publish_applied command topic r mode errors) k (Q_of service command n)
    unfolding publish_applied
    publish_applied-Ensures c =
        let long = acked k k m refl in
        Ensures-otherwise (
          publish_command-Ensures command r mode errors k _
            (λ _ q z. record {
              ends = (omega (arith, long, z), λ q. absurd (error_not_published q));
            })
            (λ channel no. record {
              ends = (
                one_more k.published_messages _ long (omega arith),
                λ q. absurd (error_not_published q),
              );
            })
            (λ channel found ok.
              let list = announced_messages channel ok in
              record {
                ends = (
                  omega (
                    arith,
                    ap length list,
                    length-append n.published_messages
                        (announcement k.config channel r mode errors k.now command.desired_state),
                  ),
                  λ _. record {
                    applied = r;
                    channel = channel;
                    mode = mode;
                    errors = errors;
                    now = k.now;
                    pins_written = p;
                    is_applied = applied_state_of r n.pins k.pins p ok;
                    is_recorded = c ok;
                    has_channel = found;
                    messages = list;
                    count = refl;
                  },
                );
              })
            (λ e k' _ (more, h).
              command_failed-Ensures service command topic n _ e k'
                (omega (arith, long, ap length h, length-append k.published_messages more))))

  after_apply-Ensures :
      (r : SwitchApplyResult) (k : Node)
      → Applied service command n r k
      → Ensures (after_apply settings command topic r) k (Q_of service command n)
  unfolding after_apply record_state
  after_apply-Ensures r k a = Ensures-otherwise (
      Ensures-if (is_ready r.phase)
        (λ ok. Ensures-bind (record {
          ends =
              Ensures-cases (persist-Ensures settings quiet r.key command.desired_state _)
                (λ (mode, errors) k' (m, c, p).
                  publish_applied-Ensures r mode errors k' (m ∙ a.messages)
                    (subst
                      (λ x.
                        apply_switch_state service command.channel_id "" command.desired_state
                          n.pins
                        ≡ (r, x))
                      (sym p) a.pins)
                    (λ _. c ∙ ap (λ x. recorded x r.key command.desired_state) a.config))
                (λ e k' (m, c, p).
                  command_failed-Ensures service command topic n _ e k' (acked k k' a.messages m));
        }))
        (λ no. Ensures-pure (
          publish_applied-Ensures r "" [] k a.messages a.pins
            (λ ok. absurd (true_not_false (sym ok ∙ no))))))

  pub run_switch_command-Ensures :
      Ensures (run_switch_command settings service topic command) n (Q_of service command n)
  unfolding run_switch_command
  run_switch_command-Ensures =
      let ack = ack_message n.config command in
      let failed : (e : Raised) (k : Node)
          → k.published_messages ≡ (posted n ack).published_messages
          → _ =
        λ e k h.
          command_failed-Ensures service command topic n nothing_applied e k
            (acked (posted n ack) k refl h) in
      Ensures-bind (record {
        ends = Ensures-bind (
            Ensures-publish _ _ _
              (Ensures-otherwise (
                apply_state-Ensures service command.channel_id command.desired_state (posted n ack)
                  _
                  (after_apply-Ensures _ _ (record { messages = refl; config = refl; pins = refl }))
                  (λ e _. failed e _ refl) (λ e _. failed e _ refl)))
              (λ _ _. tt));
      })
