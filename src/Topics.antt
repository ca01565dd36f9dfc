-- ===== src/Topics.antt =====
-- cpynodus_ii/features/topics.py: the names of the MQTT topics.
use Prim.Native.String
use c_py_nodus_ii.Prelude.{String, List, [], ◌∷◌, if◌then◌else◌}
use c_py_nodus_ii.Prelude.Text.{strip, is_space, is_slash, is_blank}

unfoldable pub mqtt_base_topic : String → String
mqtt_base_topic base_topic =
    let topic = strip is_space base_topic in if is_blank topic then "nodus" else topic

-- The members of the topic: the parts that are not empty without their slashes.
unfoldable pub members : List String → List String
members [] = []
members (p ∷ ps) =
    let rest = members ps in if is_blank (strip is_slash p) then rest else strip is_slash p ∷ rest

-- "/".join(members)
unfoldable pub join : List String → String
join [] = ""
join (m ∷ []) = m
join (m ∷ n ∷ ms) = String.◌++◌ m (String.◌++◌ "/" (join (n ∷ ms)))

abbrev topic_under : String → List String → String
topic_under base [] = base
topic_under base (m ∷ ms) = String.◌++◌ base (String.◌++◌ "/" (join (m ∷ ms)))

unfoldable pub mqtt_topic : String → List String → String
unfolding mqtt_base_topic
mqtt_topic base_topic parts = topic_under (mqtt_base_topic base_topic) (members parts)
