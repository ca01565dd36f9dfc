-- ===== src/Commands/Recognised.antt =====
-- The topics of switch commands are recognised, and give the channel back.
use Prim.Native.String
use Prim.Native.Char.{char}
use text.Mathlib.TextLemmas.{nil-append, cons-append, append_assoc}
use c_py_nodus_ii.Prelude.{
  String, Bool, true, false, ◌≡◌, refl, ap, ◌∙◌, List, [], ◌∷◌, some, arith, inl, inr, Bool-cases,
  eq_iff, str_eq, ◌++◌, eq_refl,
}
use c_py_nodus_ii.Prelude.Text.{
  strip, strip_left, strip_right, has, is_space, is_slash, is_blank, split_at-append,
}
use c_py_nodus_ii.Prelude.Strip.{strip-plain, strip_left-kept, strip_right-append}
use c_py_nodus_ii.Topics.{mqtt_base_topic, mqtt_topic, members, join}
use c_py_nodus_ii.Commands.{RuntimeConfig}
use c_py_nodus_ii.Commands.Routes.{
  channel_id_from_topic, config_set_topic, is_switch_command_topic, ends_with, any_channel,
  find_runtime_channel,
}
use c_py_nodus_ii.Switch.Config.{SwitchChannelConfig}

-- A base topic that is one part.
abbrev pub IsPlain : String → Type 0
IsPlain s = (has is_space s ≡ false) × (has is_slash s ≡ false)

base_topic-IsPlain :
    (base : String)
    → IsPlain base
    → IsPlain (mqtt_base_topic base) × (is_blank (mqtt_base_topic base) ≡ false)
unfolding mqtt_base_topic has
base_topic-IsPlain base (a, b) =
    rw (strip-plain is_space base a) (elim (Bool-cases (is_blank base)) [
      | inl e ↦ rw e ((refl, refl), refl)
      | inr e ↦ rw (e, a, b) ((refl, refl), e)
    ])

abbrev text_of : String → String → String
text_of base id = String.◌++◌ base (String.◌++◌ "/" (String.◌++◌ id "/config/set"))

members-plain :
    (id : String)
    → has is_slash id ≡ false
    → is_blank id ≡ false
    → members (id ∷ "config" ∷ "set" ∷ []) ≡ id ∷ "config" ∷ "set" ∷ []
unfolding members strip_left strip_right
members-plain id h n = rw (strip-plain is_slash id h, n) refl

config_set_topic-plain :
    (config : RuntimeConfig) (id : String)
    → has is_slash id ≡ false
    → is_blank id ≡ false
    → config_set_topic config id ≡ text_of (mqtt_base_topic config.base_topic) id
unfolding mqtt_topic join
config_set_topic-plain config id h n = rw (members-plain id h n) refl

slash-append : (s : String) → String.◌++◌ "/" s ≡ String.◌∷◌ (char 47 tt) s
slash-append s = cons-append (char 47 tt) "" s ∙ ap (String.◌∷◌ (char 47 tt)) (nil-append s)

text_of_assoc :
    (base id : String)
    → text_of base id ≡ String.◌++◌ (String.◌++◌ base (String.◌++◌ "/" id)) "/config/set"
text_of_assoc base id =
    rw (append_assoc base (String.◌++◌ "/" id) "/config/set", append_assoc "/" id "/config/set")

stripped-text :
    (base id : String)
    → has is_space base ≡ false
    → is_blank base ≡ false
    → strip is_space (text_of base id) ≡ text_of base id
unfolding strip_right
stripped-text base id h n =
    rw
      (
        strip_left-kept is_space base (String.◌++◌ "/" (String.◌++◌ id "/config/set")) n h,
        text_of_assoc base id,
      )
      (strip_right-append is_space (String.◌++◌ base (String.◌++◌ "/" id)) "/config/set" refl)

-- The parts of the topic of a plain base and a channel id without slashes.
channel_id-text_of :
    (base id : String)
    → IsPlain base
    → is_blank base ≡ false
    → has is_slash id ≡ false
    → channel_id_from_topic (text_of base id) ≡ id
unfolding channel_id_from_topic
channel_id-text_of base id (s, p) n h = rw (
  stripped-text base id s n,
  slash-append (String.◌++◌ id "/config/set"),
  split_at-append is_slash base (char 47 tt) (String.◌++◌ id "/config/set") p refl,
  split_at-append is_slash id (char 47 tt) "config/set" h refl,
)

ends_with-append : (a : String) → ends_with "/config/set" (String.◌++◌ a "/config/set") ≡ true
unfolding ends_with
ends_with-append String.[] = refl
ends_with-append (String.◌∷◌ c a) =
    rw (cons-append c a "/config/set") (ground (arith, ends_with-append a))

any_channel-own :
    (f : SwitchChannelConfig → Bool) (before after : List SwitchChannelConfig)
    (c : SwitchChannelConfig)
    → f c ≡ true
    → any_channel f (before ++ c ∷ after) ≡ true
unfolding any_channel
any_channel-own f [] after c h = ground (arith, h)
any_channel-own f (b ∷ before) after c h = ground (arith, any_channel-own f before after c h)

find_runtime_channel-own :
    (before after : List SwitchChannelConfig) (c : SwitchChannelConfig)
    → (found : SwitchChannelConfig) × (find_runtime_channel (before ++ c ∷ after) c.channel_id
        ≡ some found)
      × (found.channel_id ≡ c.channel_id)
unfolding find_runtime_channel
find_runtime_channel-own [] after c = (c, ground (arith, eq_iff c.channel_id c.channel_id), refl)
find_runtime_channel-own (b ∷ before) after c =
    let (found, ih, same) = find_runtime_channel-own before after c in
    elim (Bool-cases (str_eq b.channel_id c.channel_id)) [
      | inl e ↦ (b, rw e refl, (eq_iff b.channel_id c.channel_id).0 e)
      | inr e ↦ (found, rw (e, ih) refl, same)
    ]

module _ (config : RuntimeConfig) (before after : List SwitchChannelConfig)
    (c : SwitchChannelConfig) (has_channel : config.switch.channels ≡ before ++ c ∷ after)
    (plain : IsPlain config.base_topic) (no_slash : has is_slash c.channel_id ≡ false)
    (full : is_blank c.channel_id ≡ false) where
  own_topic-text :
      config_set_topic config c.channel_id
      ≡ text_of (mqtt_base_topic config.base_topic) c.channel_id
  own_topic-text = config_set_topic-plain config c.channel_id no_slash full

  own_topic-stripped :
      strip is_space (config_set_topic config c.channel_id) ≡ config_set_topic config c.channel_id
  own_topic-stripped =
      let (p, n) = base_topic-IsPlain config.base_topic plain in
      rw own_topic-text (stripped-text (mqtt_base_topic config.base_topic) c.channel_id p.0 n)

  own_topic-ends_with : ends_with "/config/set" (config_set_topic config c.channel_id) ≡ true
  own_topic-ends_with =
      rw (own_topic-text, text_of_assoc (mqtt_base_topic config.base_topic) c.channel_id)
        (ends_with-append
          (String.◌++◌ (mqtt_base_topic config.base_topic) (String.◌++◌ "/" c.channel_id)))

  -- The base topic is one part without spaces, and the id of a configured channel is not empty and
  -- has no slash: a message on the channel's command topic is taken for a switch command, the
  -- channel's id is read out of the topic, and the configuration has a channel of that id.
  pub channel_topic_recognised :
      (is_switch_command_topic (config_set_topic config c.channel_id) config ≡ true)
      × (channel_id_from_topic (config_set_topic config c.channel_id) ≡ c.channel_id)
      × ((found : SwitchChannelConfig) × (find_runtime_channel config.switch.channels c.channel_id
            ≡ some found)
          × (found.channel_id ≡ c.channel_id))
  unfolding is_switch_command_topic
  channel_topic_recognised =
      let (p, n) = base_topic-IsPlain config.base_topic plain in
      (
        rw (own_topic-stripped, own_topic-ends_with, has_channel)
            (any_channel-own
              (λ channel.
                str_eq (config_set_topic config c.channel_id)
                  (config_set_topic config channel.channel_id))
              before after c (eq_refl (config_set_topic config c.channel_id))),
        rw own_topic-text
            (channel_id-text_of (mqtt_base_topic config.base_topic) c.channel_id p n no_slash),
        rw has_channel (find_runtime_channel-own before after c),
      )
