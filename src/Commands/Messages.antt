-- ===== src/Commands/Messages.antt =====
-- The messages of a switch command, and the publications of its state and of its meta patch.
use c_py_nodus_ii.Prelude.{
  ℕ, ◌+◌, String, Bool, true, false, ◌≡◌, Option, none, some, List, [], ◌∷◌, ◌++◌, arith,
  if◌then◌else◌, length,
}
use c_py_nodus_ii.Prelude.Text.{is_blank}
use c_py_nodus_ii.Switch.Hardware.{is_ready}
use c_py_nodus_ii.Switch.Config.{SwitchChannelConfig}
use c_py_nodus_ii.Switch.Service.{SwitchApplyResult}
use c_py_nodus_ii.Commands.{
  RuntimeConfig, switch_event, switch_state, config_ack, PublishedMessage, published_message,
  published, error, skipped, Node, done, topic_in, device_id,
}
use c_py_nodus_ii.Commands.Routes.{find_runtime_channel}
use c_py_nodus_ii.Commands.Parse.{SwitchCommand}
use c_py_nodus_ii.Commands.Switch.{
  PublishResult, on_off, is_true, result_payload, publish_state, publish_patch,
  publish_switch_meta_patch, patch_payload, no_channel,
}
use c_py_nodus_ii.Commands.Rules.{
  Ends, Ensures, Ensures-bind, Ensures-pure, Ensures-if, Ensures-option, Ensures-publish, posted,
  Raising, Raising-spent, Raising-posted,
}

abbrev pub ack_message : RuntimeConfig → SwitchCommand → PublishedMessage
ack_message config command =
    published_message (topic_in config (command.channel_id ∷ "config" ∷ "ack" ∷ []))
      (config_ack command.message_id true false) false

abbrev pub result_message :
    RuntimeConfig
    → SwitchChannelConfig
    → SwitchApplyResult
    → String
    → String
    → List String
    → PublishedMessage
result_message config channel r message_id mode errors =
    published_message (topic_in config (channel.channel_id ∷ "config" ∷ "result" ∷ []))
      (result_payload r message_id mode errors) false

abbrev pub event_message :
    RuntimeConfig → SwitchChannelConfig → Bool → String → Option String → ℕ → PublishedMessage
event_message config channel state message_id source now =
    published_message (topic_in config (channel.channel_id ∷ "event" ∷ []))
      (switch_event config.switch.device_id channel.channel_id channel.label (on_off state)
        message_id now source)
      false

-- The broker keeps this one.
abbrev pub state_message : RuntimeConfig → SwitchChannelConfig → Bool → PublishedMessage
state_message config channel state =
    published_message (topic_in config (channel.channel_id ∷ "state" ∷ []))
      (switch_state (on_off state)) true

abbrev pub patch_message :
    RuntimeConfig → SwitchChannelConfig → Bool → String → ℕ → PublishedMessage
patch_message config channel state message_id now =
    published_message (topic_in config (device_id config ∷ "meta" ∷ "patch" ∷ []))
      (patch_payload config channel state now "switch_set" message_id) false

abbrev source_of : String → Option String
source_of source = if is_blank source then none else some source

abbrev pub state_published : List String → PublishedMessage → PublishedMessage → PublishResult
state_published topics event retained = record {
  phase = published;
  published_count = length topics + 2;
  topics = topics ++ event.topic ∷ retained.topic ∷ [];
  errors = [];
}

pub publish_state-Ensures :
    (config : RuntimeConfig) (channel : SwitchChannelConfig) (state : Bool) (id source : String)
    (topics : List String) (n : Node) (Q : Ends PublishResult)
    → let event = event_message config channel state id (source_of source) n.now in
      let retained = state_message config channel state in
      Q (done (state_published topics event retained)) (posted (posted n event) retained)
      → Raising Q n
      → Ensures (publish_state config channel state id source topics) n Q
unfolding publish_state
publish_state-Ensures config channel state id source topics n Q q r =
    let event = event_message config channel state id (source_of source) n.now in
    Ensures-bind (record {
      ends = Ensures-bind (
          Ensures-publish _ _ _
            (Ensures-bind (
              Ensures-publish _ _ _ (Ensures-pure q)
                (Raising-spent Q (posted n event) (Raising-posted Q n r event))))
            (Raising-spent Q n r));
    })

pub none_not_some : {c : SwitchChannelConfig} → none ≡ some c → ⊥
none_not_some h = ground arith

pub some_injective : {c d : SwitchChannelConfig} → some c ≡ some d → c ≡ d
some_injective h = ground arith

pub true_not_false : true ≡ false → ⊥
true_not_false h = ground arith

abbrev pub refused : SwitchApplyResult → PublishedMessage → PublishResult
refused r m = record {
  phase = error;
  published_count = 1;
  topics = m.topic ∷ [];
  errors = r.errors;
}

abbrev pub not_patched : SwitchApplyResult → PublishResult
not_patched r = record { phase = skipped; published_count = 0; topics = []; errors = r.errors }

abbrev pub patched : RuntimeConfig → PublishResult
patched config = record {
  phase = published;
  published_count = 1;
  topics = topic_in config (device_id config ∷ "meta" ∷ "patch" ∷ []) ∷ [];
  errors = [];
}

pub publish_switch_meta_patch-Ensures :
    (id : String) (r : SwitchApplyResult) (n : Node) (Q : Ends PublishResult)
    → (find_runtime_channel n.config.switch.channels r.channel_id ≡ none → Q (done no_channel) n)
    → (is_ready r.phase ≡ false → Q (done (not_patched r)) n)
    → ((channel : SwitchChannelConfig)
        → find_runtime_channel n.config.switch.channels r.channel_id ≡ some channel
        → is_ready r.phase ≡ true
        → Q
            (done (patched n.config))
            (posted n (patch_message n.config channel (is_true r.applied_state) id n.now)))
    → Raising Q n
    → Ensures (publish_switch_meta_patch r id "switch_set") n Q
unfolding publish_switch_meta_patch publish_patch
publish_switch_meta_patch-Ensures id r n Q missing refuse ready raising = Ensures-bind (record {
  ends =
      Ensures-if (is_ready r.phase)
        (λ e.
          Ensures-option (find_runtime_channel n.config.switch.channels r.channel_id)
            (λ f. Ensures-pure (missing f))
            (λ channel f. Ensures-bind (record {
              ends = Ensures-bind (
                  Ensures-publish _ _ _ (Ensures-pure (ready channel f e))
                    (Raising-spent Q n raising));
            })))
        (λ e. Ensures-pure (refuse e));
})
