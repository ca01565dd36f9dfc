-- ===== src/Automation/Channels.antt =====
-- Services whose channels an automation can address.
use c_py_nodus_ii.Prelude.{
  ◌≡◌, ◌≢◌, refl, sym, subst, ◌∙◌, String, Bool, true, false, not, ◌&&◌, ◌||◌, none, some, List, [],
  ◌∷◌, arith, str_eq, eq_iff, All, Bool-cases, inl, inr,
}
use c_py_nodus_ii.Prelude.Text.{suffix_of}
use c_py_nodus_ii.Switch.Service.{SwitchChannelService, SwitchService, find_channel}
use c_py_nodus_ii.Automation.Pins.{local_channel, IsAddressed}

abbrev pub has_id : String → List SwitchChannelService → Bool
has_id id [] = false
has_id id (c ∷ cs) = str_eq c.channel_id id || has_id id cs

-- Ids that are not empty, and none twice.
abbrev pub DistinctIds : List SwitchChannelService → Type 0
DistinctIds [] = Unit
DistinctIds (c ∷ cs) = (c.channel_id ≢ "") × (has_id c.channel_id cs ≡ false) × DistinctIds cs

some-inj : (c d : SwitchChannelService) → some c ≡ some d → c ≡ d
some-inj c d e = ground (arith, e)

found_id :
    (suffix : String) (cs : List SwitchChannelService) (c : SwitchChannelService)
    → local_channel suffix cs ≡ some c
    → has_id c.channel_id cs ≡ true
unfolding local_channel
found_id suffix [] c e = ground (arith, e)
found_id suffix (d ∷ cs) c e = ground (
  arith,
  e,
  found_id suffix cs c,
  eq_iff c.channel_id c.channel_id,
  eq_iff d.channel_id c.channel_id,
)

module _ (suffix : String) (x c : SwitchChannelService) (cs : List SwitchChannelService) where
  abbrev test : Bool
  test = not (str_eq suffix "") && (str_eq x.channel_id suffix || str_eq x.key suffix)

  found_here : test ≡ true → local_channel suffix (x ∷ cs) ≡ some c → x ≡ c
  unfolding local_channel
  found_here b e = some-inj x c (sym (rw b refl) ∙ e)

  found_later :
      test ≡ false → local_channel suffix (x ∷ cs) ≡ some c → local_channel suffix cs ≡ some c
  unfolding local_channel
  found_later b e = ground (arith, b, e)

own_control :
    (suffix : String) (cs : List SwitchChannelService) (c : SwitchChannelService)
    → All (λ (c : SwitchChannelService). c.control_handle ≢ none) cs
    → local_channel suffix cs ≡ some c
    → c.control_handle ≢ none
unfolding local_channel
own_control suffix [] c h e = ground (arith, e)
own_control suffix (x ∷ cs) c (a, h) e = elim (Bool-cases (test suffix x c cs)) [
  | inl b ↦
      subst (λ (y : SwitchChannelService). y.control_handle ≢ none) (found_here suffix x c cs b e) a
  | inr b ↦ own_control suffix cs c h (found_later suffix x c cs b e)
]

find-local_channel :
    (suffix : String) (cs : List SwitchChannelService) (c : SwitchChannelService)
    → DistinctIds cs
    → local_channel suffix cs ≡ some c
    → find_channel c.channel_id "" cs ≡ some c
unfolding local_channel find_channel
find-local_channel suffix [] c d e = ground (arith, e)
find-local_channel suffix (x ∷ cs) c (n, u, d) e =
    let here = not (str_eq suffix "") && (str_eq x.channel_id suffix || str_eq x.key suffix) in
    elim (Bool-cases here) [
      | inl b ↦
          let same = found_here suffix x c cs b e in
          subst (λ (y : SwitchChannelService). find_channel y.channel_id "" (x ∷ cs) ≡ some y) same
            (ground (arith, n, eq_iff x.channel_id x.channel_id, eq_iff x.channel_id ""))
      | inr b ↦
          let later = found_later suffix x c cs b e in
          ground (
            arith,
            find-local_channel suffix cs c d later,
            found_id suffix cs c later,
            u,
            eq_iff x.channel_id c.channel_id,
          )
    ]

-- Where the ids of the channels are distinct and every channel has a control handle, the web's
-- request reaches the channel that the automation reads.
pub distinct-IsAddressed :
    (s : SwitchService)
    → DistinctIds s.channels
    → All (λ (c : SwitchChannelService). c.control_handle ≢ none) s.channels
    → IsAddressed s
distinct-IsAddressed s d h = record {
  same_channel = λ key c e found other.
      some-inj c e (sym (find-local_channel (suffix_of key) s.channels c d found) ∙ other);
  has_control = λ key c found _. own_control (suffix_of key) s.channels c h found;
}
