-- ===== src/Commands/Rules.antt =====
-- Rules for what holds when an action ends, by a value or an exception.
use c_py_nodus_ii.Prelude.{
  String, Bool, true, false, Option, none, some, List, [], ◌∷◌, ◌++◌, ◌≡◌, ◌≢◌, refl, arith, subst,
  ◌∙◌, sym, if◌then◌else◌,
}
use c_py_nodus_ii.LogTransfer.Messages.{append_assoc, append-nil}
use c_py_nodus_ii.Commands.{
  Payload, PublishedMessage, Raised, Node, Outcome, done, raised, Exec, pure, allocate, publish,
  continue, handle, try_except, published_message, fault_of, without_first, ◌>>=◌,
}
use c_py_nodus_ii.Commands.SwitchCommand.{otherwise, settle}

abbrev pub Ends : Type 0 → Type 1
Ends A = Outcome A → Node → Type 0

-- The action, from the node, ends as `Q` says.
pub record Ensures {A : Type 0} (m : Exec A) (n : Node) (Q : Ends A) : Type 0 where
  pub ends : Q ((m n).0) ((m n).1)

-- What is asked of the values; of an exception nothing is.
abbrev pub Returns : {A : Type 0} → (A → Node → Type 0) → Ends A
Returns P (done a) n = P a n
Returns P (raised e) n = Unit {0}

-- The node after a call that took memory.
abbrev pub spent : Node → Node
spent n = record n { faults = without_first n.faults }

abbrev pub posted : Node → PublishedMessage → Node
posted n m = record (spent n) { published_messages = n.published_messages ++ m ∷ [] }

module _ {A B : Type 0} where
  abbrev pub Then : (A → Exec B) → Ends B → Ends A
  Then f Q (done a) n = Ensures (f a) n Q
  Then f Q (raised e) n = Q (raised e) n

  abbrev pub Either : (Raised → Exec B) → (A → Exec B) → Ends B → Ends A
  Either h k Q (done a) n = Ensures (k a) n Q
  Either h k Q (raised e) n = Ensures (h e) n Q

  then_ends :
      (f : A → Exec B) (Q : Ends B) (o : Outcome A) (n : Node)
      → Then f Q o n
      → Ensures (continue o f) n Q
  then_ends f Q (done a) n q = q
  then_ends f Q (raised e) n q = record { ends = q }

  pub Ensures-bind :
      {m : Exec A} {f : A → Exec B} {n : Node} {Q : Ends B}
      → Ensures m n (Then f Q)
      → Ensures (m >>= f) n Q
  unfolding ◌>>=◌
  Ensures-bind {m} {f} {n} {Q} q = record { ends = (then_ends f Q ((m n).0) ((m n).1) q.ends).ends }

  either_ends :
      (h : Raised → Exec B) (k : A → Exec B) (Q : Ends B) (o : Outcome A) (n : Node)
      → Either h k Q o n
      → Ensures (settle o h k) n Q
  either_ends h k Q (done a) n q = q
  either_ends h k Q (raised e) n q = q

  pub Ensures-otherwise :
      {m : Exec A} {h : Raised → Exec B} {k : A → Exec B} {n : Node} {Q : Ends B}
      → Ensures m n (Either h k Q)
      → Ensures (otherwise m h k) n Q
  unfolding otherwise
  Ensures-otherwise {m} {h} {k} {n} {Q} q = record {
    ends = (either_ends h k Q ((m n).0) ((m n).1) q.ends).ends;
  }

module _ {A : Type 0} where
  pub Ensures-pure : {a : A} {n : Node} {Q : Ends A} → Q (done a) n → Ensures (pure a) n Q
  Ensures-pure q = record { ends = q }

  abbrev pub Handled : (Raised → Exec A) → Ends A → Ends A
  Handled h Q (done a) n = Q (done a) n
  Handled h Q (raised e) n = Ensures (h e) n Q

  handled_ends :
      (h : Raised → Exec A) (Q : Ends A) (o : Outcome A) (n : Node)
      → Handled h Q o n
      → Ensures (handle o h) n Q
  handled_ends h Q (done a) n q = record { ends = q }
  handled_ends h Q (raised e) n q = q

  pub Ensures-try_except :
      {m : Exec A} {h : Raised → Exec A} {n : Node} {Q : Ends A}
      → Ensures m n (Handled h Q)
      → Ensures (try_except m h) n Q
  unfolding try_except
  Ensures-try_except {m} {h} {n} {Q} q = record {
    ends = (handled_ends h Q ((m n).0) ((m n).1) q.ends).ends;
  }

  -- The outcome is the action's.
  pub Ensures-and :
      {m : Exec A} {n : Node} {P : Ends A}
      → Ensures m n P
      → Ensures m n (λ o n'. P o n' × ((m n).0 ≡ o))
  Ensures-and p = record { ends = (p.ends, refl) }

  pub Ensures-known :
      {m : Exec A} {n : Node} {Q : Ends A} {o : Outcome A} {n' : Node}
      → m n ≡ (o, n')
      → Q o n'
      → Ensures m n Q
  Ensures-known {Q = Q} e q = record { ends = subst (λ x. Q x.0 x.1) (sym e) q }

  -- What a call that returned is known by.
  pub returned :
      {m : Exec A} {n : Node} {P : A → Node → Type 0} {a : A} {n' : Node}
      → Ensures m n (Returns P)
      → m n ≡ (done a, n')
      → P a n'
  returned {P = P} p e = subst (λ x. Returns P x.0 x.1) e p.ends

  by_outcome :
      (P Q : Ends A) (o : Outcome A) (n : Node)
      → ((a : A) (n' : Node) → P (done a) n' → Q (done a) n')
      → ((e : Raised) (n' : Node) → P (raised e) n' → Q (raised e) n')
      → P o n
      → Q o n
  by_outcome P Q (done a) n d r p = d a n p
  by_outcome P Q (raised e) n d r p = r e n p

  -- What is known of an action, used for its values and for its exceptions.
  pub Ensures-cases :
      {m : Exec A} {n : Node} {P Q : Ends A}
      → Ensures m n P
      → ((a : A) (n' : Node) → P (done a) n' → Q (done a) n')
      → ((e : Raised) (n' : Node) → P (raised e) n' → Q (raised e) n')
      → Ensures m n Q
  Ensures-cases {m} {n} {P} {Q} p d r = record {
    ends = by_outcome P Q ((m n).0) ((m n).1) d r p.ends;
  }

  pub Ensures-if :
      (b : Bool) {x y : Exec A} {n : Node} {Q : Ends A}
      → (b ≡ true → Ensures x n Q)
      → (b ≡ false → Ensures y n Q)
      → Ensures (if b then x else y) n Q
  Ensures-if true f g = f refl
  Ensures-if false f g = g refl

module _ {X A : Type 0} where
  pub Ensures-option :
      (o : Option X) {y : Exec A} {g : X → Exec A} {n : Node} {Q : Ends A}
      → (o ≡ none → Ensures y n Q)
      → ((x : X) → o ≡ some x → Ensures (g x) n Q)
      → Ensures (elim o [ none ↦ y | some x ↦ g x ]) n Q
  Ensures-option none f g = f refl
  Ensures-option (some x) f g = g x refl

allocated_ends :
    (fs : List (Option Raised)) (n : Node) (Q : Ends (Unit {0}))
    → Q (done tt) n
    → ((e : Raised) → fs ≢ [] → Q (raised e) n)
    → let r : Outcome (Unit {0}) × Node = elim (fault_of fs) [
      | none ↦ (done tt, n)
      | some e ↦ (raised e, n)
    ] in
      Q r.0 r.1
allocated_ends [] n Q d r = d
allocated_ends (none ∷ fs) n Q d r = d
allocated_ends (some e ∷ fs) n Q d r = r e λ h. ground (arith, h)

-- Memory is there, or the call raises, which takes a fault.
pub Ensures-allocate :
    {n : Node} {Q : Ends (Unit {0})}
    → Q (done tt) (spent n)
    → ((e : Raised) → n.faults ≢ [] → Q (raised e) (spent n))
    → Ensures allocate n Q
unfolding allocate
Ensures-allocate {n} {Q} d r = record { ends = allocated_ends n.faults (spent n) Q d r }

-- A publication is made, or it raises and nothing is.
pub Ensures-publish :
    (topic : String) (payload : Payload) (retain : Bool) {n : Node} {Q : Ends PublishedMessage}
    → Q
        (done (published_message topic payload retain))
        (posted n (published_message topic payload retain))
    → ((e : Raised) → n.faults ≢ [] → Q (raised e) (spent n))
    → Ensures (publish topic payload retain) n Q
unfolding publish ◌>>=◌
Ensures-publish topic payload retain d r = Ensures-bind (Ensures-allocate (record { ends = d }) r)

-- A list and more.
abbrev pub Extends {ℓ} : {A : Type ℓ} → List A → List A → Type ℓ
Extends {A = A} xs ys = (more : List A) × (ys ≡ xs ++ more)

-- What is asked of the exceptions of an action that starts at a node: there is a fault to take, and
-- the publications up to there are the node's and more.
abbrev pub Raising : {A : Type 0} → Ends A → Node → Type 0
Raising Q n =
    (e : Raised) (n' : Node)
    → n.faults ≢ []
    → Extends n.published_messages n'.published_messages
    → Q (raised e) n'

pub later_faults : (fs : List (Option Raised)) → without_first fs ≢ [] → fs ≢ []
later_faults [] h e = h e
later_faults (f ∷ fs) h e = ground (arith, e)

module _ {A : Type 0} (Q : Ends A) (n : Node) (r : Raising Q n) where
  pub Raising-spent : (e : Raised) → n.faults ≢ [] → Q (raised e) (spent n)
  Raising-spent e f = r e (spent n) f ([], sym (append-nil n.published_messages))

  pub Raising-posted : (m : PublishedMessage) → Raising Q (posted n m)
  Raising-posted m e n' f (ys, h) =
      r e n' (later_faults n.faults f) (m ∷ ys, h ∙ append_assoc n.published_messages (m ∷ []) ys)
