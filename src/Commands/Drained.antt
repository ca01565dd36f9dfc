-- ===== src/Commands/Drained.antt =====
-- What becomes of the messages that one call of the intake drains.
use c_py_nodus_ii.Prelude.{true, ◌≡◌, ◌⊎◌, refl, ap, inl, inr, none, some, List, [], ◌∷◌, ◌++◌}
use c_py_nodus_ii.Switch.Service.{SwitchService}
use c_py_nodus_ii.Commands.{ReceivedMessage, CommandResult, Node, pure, ◌>>=◌, done, Exec}
use c_py_nodus_ii.Commands.Parse.{Firmware}
use c_py_nodus_ii.Commands.Switch.{Settings}
use c_py_nodus_ii.Commands.Intake.{
  Handlers, is_empty_payload, Verdict, next, halted, stopped, handed, clear_received_messages,
  run_handlers, with_result, take_messages, process_inbound_messages,
}
use c_py_nodus_ii.Commands.Rules.{
  Ensures, Returns, Ensures-bind, Ensures-pure, Ensures-cases, returned,
}
use c_py_nodus_ii.Commands.Verdicts.{HandlersKeep, AfterVerdict, take_message-Ensures}
use c_py_nodus_ii.Commands.Queue.{WriterKeeps}

-- The messages, each answered by a result or blank and passed over, in their order.
pub data Covers : List ReceivedMessage → List CommandResult → Type 0 where
  nothing : Covers [] []
  answered :
      {m : ReceivedMessage} {ms : List ReceivedMessage} {r : CommandResult}
      {rs : List CommandResult}
      → Covers ms rs
      → Covers (m ∷ ms) (r ∷ rs)
  passed_over :
      {m : ReceivedMessage} {ms : List ReceivedMessage} {rs : List CommandResult}
      → is_empty_payload m ≡ true
      → Covers ms rs
      → Covers (m ∷ ms) rs

-- The messages that were taken have their results, and the others are in the queue.
pub record Kept (ms : List ReceivedMessage) (rs : List CommandResult) (n : Node) : Type 0 where
  pub taken : List ReceivedMessage
  pub rest : List ReceivedMessage
  pub split : ms ≡ taken ++ rest
  pub covers : Covers taken rs
  pub queue : n.received_messages ≡ rest

-- The messages that were taken have their results, and the command handlers were run on a node that
-- has the others in its queue; their results follow.
pub record HandedOver (h : Handlers) (ms : List ReceivedMessage) (rs : List CommandResult)
    (n : Node) : Type 0 where
  pub taken : List ReceivedMessage
  pub first : ReceivedMessage
  pub rest : List ReceivedMessage
  pub own : List CommandResult
  pub others : List CommandResult
  pub before : Node
  pub split : ms ≡ taken ++ first ∷ rest
  pub covers : Covers taken own
  pub queue : before.received_messages ≡ first ∷ rest
  pub run : run_handlers h first before ≡ (done others, n)
  pub results : rs ≡ own ++ others

abbrev pub AnyHalt : List CommandResult → Type 0
AnyHalt [] = ⊥
AnyHalt (r ∷ rs) = (r.halt_requested ≡ true) ⊎ AnyHalt rs

abbrev pub Drained : Handlers → List ReceivedMessage → List CommandResult → Node → Type 0
Drained h ms rs n = Kept ms rs n ⊎ HandedOver h ms rs n ⊎ AnyHalt rs

module _ (h : Handlers) (m : ReceivedMessage) (later : List ReceivedMessage) where
  with_answer :
      (r : CommandResult) (rs : List CommandResult) (n : Node)
      → Drained h later rs n
      → Drained h (m ∷ later) (r ∷ rs) n
  with_answer r rs n (inl k) = inl (record {
    taken = m ∷ k.taken;
    rest = k.rest;
    split = ap (λ l. m ∷ l) k.split;
    covers = answered k.covers;
    queue = k.queue;
  })
  with_answer r rs n (inr (inl k)) = inr (
      inl (record {
        taken = m ∷ k.taken;
        first = k.first;
        rest = k.rest;
        own = r ∷ k.own;
        others = k.others;
        before = k.before;
        split = ap (λ l. m ∷ l) k.split;
        covers = answered k.covers;
        queue = k.queue;
        run = k.run;
        results = ap (λ l. r ∷ l) k.results;
      }))
  with_answer r rs n (inr (inr halt)) = inr (inr (inr halt))

  without_answer :
      (rs : List CommandResult) (n : Node)
      → is_empty_payload m ≡ true
      → Drained h later rs n
      → Drained h (m ∷ later) rs n
  without_answer rs n blank (inl k) = inl (record {
    taken = m ∷ k.taken;
    rest = k.rest;
    split = ap (λ l. m ∷ l) k.split;
    covers = passed_over blank k.covers;
    queue = k.queue;
  })
  without_answer rs n blank (inr (inl k)) = inr (
      inl (record {
        taken = m ∷ k.taken;
        first = k.first;
        rest = k.rest;
        own = k.own;
        others = k.others;
        before = k.before;
        split = ap (λ l. m ∷ l) k.split;
        covers = passed_over blank k.covers;
        queue = k.queue;
        run = k.run;
        results = k.results;
      }))
  without_answer rs n blank (inr (inr halt)) = inr (inr halt)

module _ (f : Firmware) (settings : Settings) (writer : WriterKeeps settings)
    (service : SwitchService) (h : Handlers) (keep : HandlersKeep h) where
  after_verdict : ReceivedMessage → List ReceivedMessage → Verdict → Exec (List CommandResult)
  after_verdict m later v = elim v [
    | next o ↦ take_messages f settings service h later >>= λ rs. pure (with_result o rs)
    | halted r ↦ pure (r ∷ [])
    | stopped r ↦ pure (r ∷ [])
    | handed ↦ run_handlers h m
  ]

  after_verdict-Ensures :
      (m : ReceivedMessage) (later : List ReceivedMessage) (v : Verdict) (n : Node)
      → AfterVerdict m later v n
      → ((k : Node)
          → k.received_messages ≡ []
          → Ensures (take_messages f settings service h later) k (Returns (Drained h later)))
      → Ensures (after_verdict m later v) n (Returns (Drained h (m ∷ later)))
  unfolding after_verdict
  after_verdict-Ensures m later (next none) n (empty, blank) ih = Ensures-bind (
      Ensures-cases (ih n empty) (λ rs k d. Ensures-pure (without_answer h m later rs k blank d))
        (λ _ _ _. tt))
  after_verdict-Ensures m later (next (some r)) n empty ih = Ensures-bind (
      Ensures-cases (ih n empty) (λ rs k d. Ensures-pure (with_answer h m later r rs k d))
        (λ _ _ _. tt))
  after_verdict-Ensures m later (halted r) n halt ih = Ensures-pure (inr (inr (inl halt)))
  after_verdict-Ensures m later (stopped r) n queue ih = Ensures-pure (
      inl (record {
        taken = m ∷ [];
        rest = later;
        split = refl;
        covers = answered nothing;
        queue = queue;
      }))
  after_verdict-Ensures m later handed n queue ih =
      Ensures-cases {P = λ o k. run_handlers h m n ≡ (o, k)} (record { ends = refl })
        (λ rs k e. inr (
          inl (record {
            taken = [];
            first = m;
            rest = later;
            own = [];
            others = rs;
            before = n;
            split = refl;
            covers = nothing;
            queue = queue;
            run = e;
            results = refl;
          })))
        (λ _ _ _. tt)

  take_messages-Ensures :
      (ms : List ReceivedMessage) (n : Node)
      → n.received_messages ≡ []
      → Ensures (take_messages f settings service h ms) n (Returns (Drained h ms))
  unfolding take_messages after_verdict
  take_messages-Ensures [] n empty =
      Ensures-pure
        (inl (record { taken = []; rest = []; split = refl; covers = nothing; queue = empty }))
  take_messages-Ensures (m ∷ later) n empty = Ensures-bind (
      Ensures-cases (take_message-Ensures f settings writer service h keep m later n empty)
        (λ v k a. after_verdict-Ensures m later v k a (take_messages-Ensures later)) (λ _ _ _. tt))

  -- The handlers of single messages and the settings' writer leave the queue alone: where the intake
  -- returns, the drained messages are a beginning, whose messages each have a result or are blank,
  -- and a rest that is back in the queue in its order; or that rest was handed over to the command
  -- handlers, in the queue and in its order, and their results follow; or a result asks for a halt.
  pub process_inbound_messages_loses_none :
      (n : Node) (rs : List CommandResult) (n' : Node)
      → process_inbound_messages f settings service h n ≡ (done rs, n')
      → Drained h n.received_messages rs n'
  unfolding process_inbound_messages clear_received_messages
  process_inbound_messages_loses_none n rs n' e =
      returned
        (Ensures-bind {Q = Returns (Drained h n.received_messages)} (record {
          ends = Ensures-bind (record { ends = take_messages-Ensures n.received_messages _ refl });
        }))
        e
