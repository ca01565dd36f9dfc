-- ===== src/Automation/Raw.antt =====
-- A script before `_normalize_script`. A raw field is what Python's `int` or `float` makes of the
-- value of the JSON document, `none` where that raises a `TypeError` or a `ValueError`, and a text is
-- the value's `str`, without spaces around it (`op` has them still) and, for `kind`, `revert_action`
-- and the state, in lower case; a value that counts as false gives the empty text. An infinite
-- number, of which `int` raises an `OverflowError`, is not among the raw fields.
use c_py_nodus_ii.Prelude.{ℕ, String, Bool, true, false, Option, none, some, List}
use c_py_nodus_ii.Prelude.Int.{ℤ}
use c_py_nodus_ii.Switch.Config.{SwitchChannelConfig}

-- A result, the text of the `ValueError`, or another exception by its name, which no `except` clause
-- of the service catches.
pub data Checked {ℓ} (A : Type ℓ) : Type ℓ where
  valid : A → Checked A
  value_error : String → Checked A
  raises : String → Checked A

abbrev pub pure : {A : Type 0} → A → Checked A
pure a = valid a

infixl 5 ◌>>=◌ ◌>>◌
unfoldable pub ◌>>=◌ : {A B : Type 0} → Checked A → (A → Checked B) → Checked B
valid a >>= f = f a
value_error e >>= f = value_error e
raises e >>= f = raises e

abbrev pub ◌>>◌ : {A B : Type 0} → Checked A → Checked B → Checked B
m >> n = m >>= λ _. n

-- `if not b: raise ValueError(e)`
abbrev pub require : Bool → String → Checked Bool
require true e = valid true
require false e = value_error e

abbrev pub some_or : {A : Type 0} → Option A → String → Checked A
some_or none e = value_error e
some_or (some a) e = valid a

-- The items of `days`, none where the value counts as false; or a value that `for` cannot go over.
pub data RawDays : Type 0 where
  items : List (Option ℤ) → RawDays
  not_iterable : RawDays

-- A clock is the two numbers of its parts, where it has two.
pub record RawCondition : Type 0 where
  pub is_dict : Bool
  pub kind : String
  pub sensor_id : String
  pub metric : String
  pub op : String
  pub value : Option ℤ
  pub hyst : Option ℤ
  pub start : Option (ℤ × ℤ)
  pub end : Option (ℤ × ℤ)
  pub days : RawDays
  pub duration_min : Option ℤ
  pub period_min : Option ℤ
  pub freq_hours : Option ℤ
  pub anchor_epoch : Option ℤ

pub data RawState : Type 0 where
  flag : Bool → RawState
  text : String → RawState

pub record RawAction : Type 0 where
  pub is_dict : Bool
  pub switch_key : String
  pub set : RawState
  pub revert_action : String
  pub delay_s : Option ℤ

-- `is_truthy` is of a script that is no dictionary. `json_length` is the length of the script as JSON. A value of "conditions" or "actions" that is no
-- list counts as an empty one.
pub record RawScript : Type 0 where
  pub is_dict : Bool
  pub is_truthy : Bool
  pub json_length : ℕ
  pub name : String
  pub conditions : List RawCondition
  pub actions : List RawAction

-- What is read of the configuration, and of the clock where it is ready.
pub record Site : Type 0 where
  pub sensor_id : String
  pub device_id : String
  pub channels : List SwitchChannelConfig
  pub now_epoch : Option ℕ
