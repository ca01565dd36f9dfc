-- ===== src/Ntp/Calls.antt =====
-- The loop that passes each result's state to the next call of `maybe_sync_ntp`, over a history of
-- calls with the newest first, and an independent reading of that history.
use c_py_nodus_ii.Prelude.{
  ℕ, ◌+◌, ◌==◌, ◌≡◌, String, Bool, true, not, ◌&&◌, ◌||◌, List, [], ◌∷◌, Option, none, some, arith,
  ltb, leb, eq_iff, if◌then◌else◌,
}
use c_py_nodus_ii.Prelude.Int.{ℤ}
use c_py_nodus_ii.Ntp.{
  Phase, skipped, synced, NtpConfig, Network, NtpState, initial_state, primary_of, ntp_targets,
  is_in, Attempt, answered_by, Reply, answered, raised, one_target, try_targets, is_cooldown,
  is_disabled, maybe_sync_ntp,
}

-- One call: what the network answers, and the time.
pub record Call : Type 0 where
  pub network : Network
  pub now : ℤ

unfoldable pub run : NtpConfig → List Call → NtpState
run c [] = initial_state
run c (o ∷ earlier) = (maybe_sync_ntp c o.network (run c earlier) o.now).state

-- What the newest call of a history did.
abbrev pub outcome : NtpConfig → Call → List Call → Phase
outcome c o earlier = (maybe_sync_ntp c o.network (run c earlier) o.now).phase

abbrev pub count_failure : Phase → ℕ → ℕ
count_failure skipped n = n
count_failure synced n = 0
count_failure _ n = n + 1

-- The attempts that failed since the last one that succeeded.
unfoldable pub failures : NtpConfig → List Call → ℕ
failures c [] = 0
failures c (o ∷ earlier) = count_failure (outcome c o earlier) (failures c earlier)

module _ (c : NtpConfig) where
  pub primary-is_in : is_in (primary_of c) (ntp_targets c) ≡ true
  unfolding ntp_targets
  primary-is_in = ground (arith, eq_iff (primary_of c) (primary_of c))

  one_target-is_in :
      (rest : Attempt) (t : String) (ts : List String) (target text : String) (u : Option String)
      (r : Reply)
      → one_target t u r rest ≡ answered_by target text
      → (rest ≡ answered_by target text → is_in target ts ≡ true)
      → is_in target (t ∷ ts) ≡ true
  one_target-is_in rest t ts target text none (answered x) e f = ground (arith, eq_iff target t)
  one_target-is_in rest t ts target text none (raised x) e f = ground (arith, f e)
  one_target-is_in rest t ts target text (some x) r e f = ground (arith, f e)

  -- A server that answers is one of the targets.
  pub answered-is_in :
      (n : Network) (ts : List String) (errors : List String) (target text : String)
      → try_targets n ts errors ≡ answered_by target text
      → is_in target ts ≡ true
  unfolding try_targets
  answered-is_in n [] errors target text e = ground arith
  answered-is_in n (t ∷ ts) errors target text e =
      one_target-is_in _ t ts target text (n.unresolved t) (n.reply t) e
        (answered-is_in n ts _ target text)

-- The failures that a state counts, through both windows.
abbrev pub spent_of : ℕ → ℕ → ℕ → ℕ
spent_of max count window = if leb window 1 then count else max + count

-- A count that its window allows.
abbrev pub within : ℕ → Bool → ℕ → ℕ → Bool
within max dis count window =
    if leb window 1 then not dis && ltb count max else if dis then count == max else ltb count max

-- What a state says of the servers that the node uses now.
abbrev pub same_server : NtpConfig → NtpState → Bool
same_server c s = is_in s.server (ntp_targets c)

abbrev pub count_of : NtpConfig → NtpState → ℕ
count_of c s = if same_server c s then s.failure_count else 0

abbrev pub window_of : NtpConfig → NtpState → ℕ
window_of c s = if same_server c s then s.failure_window else 1

unfoldable pub spent : NtpConfig → NtpState → ℕ
spent c s = spent_of c.max_dns_failures (count_of c s) (window_of c s)

unfoldable pub is_within : NtpConfig → NtpState → Bool
is_within c s =
    within c.max_dns_failures (same_server c s && is_disabled s.phase) (count_of c s)
      (window_of c s)
    && (not (same_server c s && is_cooldown s.phase)
        || (s.failure_count == 0 && s.failure_window == 2))
    && (not (is_disabled s.phase) || same_server c s)
