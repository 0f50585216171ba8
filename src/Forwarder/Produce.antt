-- ===== src/Forwarder/Produce.antt =====
-- `safe_produce` and `send_to_dlq` of audit_forwarder.py. The producer of Routing is outside. The
-- record of a value for the dead-letter queue is told by its topic.
use auditlens.Prelude.{
  ℕ, zero, suc, ◌+◌, ◌≤◌, ◌≡◌, ◌↔◌, refl, Bool, true, false, not, ◌&&◌, List, [], ◌∷◌, ◌++◌, String,
  arith, str_eq, if◌then◌else◌,
}
use mathlib.Core.Path.{subst}
use auditlens.Routing.{Producer, Attempt, queued, buffer_full, raises}

pub record DlqConfig : Type 0 where
  pub enabled : Bool
  pub topic : String

-- The calls of the producer, the records that it took, and the counters of `dlq_stats`.
pub record Output (V : Type 0) : Type 0 where
  pub calls : ℕ
  pub taken : List (String × V)
  pub dlq_enqueued : ℕ
  pub dlq_failed : ℕ

-- How `safe_produce` ends: with a truth value, or with an exception of the producer.
pub data End : Type 0 where
  returns : Bool → End
  throws : End

-- A number of calls from a given one on all find the queue full.
abbrev pub AllFull : Producer → ℕ → ℕ → Type 0
AllFull p zero n = Unit
AllFull p (suc left) n = (p.attempt n ≡ buffer_full) × AllFull p left (n + 1)

abbrev pub is_queued : Attempt → Bool
is_queued queued = true
is_queued _ = false

module _ {V : Type 0} (p : Producer) (dlq : DlqConfig) where
  abbrev accept : String → V → Output V → Output V
  accept topic v o = record o { calls = o.calls + 1; taken = o.taken ++ (topic, v) ∷ [] }

  abbrev refuse : Output V → Output V
  refuse o = record o { calls = o.calls + 1 }

  abbrev count_failed : Output V → Output V
  count_failed o = record o { dlq_failed = o.dlq_failed + 1 }

  abbrev count_enqueued : Output V → Output V
  count_enqueued o = record o { dlq_enqueued = o.dlq_enqueued + 1 }

  -- `send_to_dlq`
  unfoldable pub send_to_dlq : V → Output V → Output V
  send_to_dlq v o =
      let sent : Output V = elim (p.attempt o.calls) [
        | queued ↦ count_enqueued (accept dlq.topic v o)
        | buffer_full ↦ count_failed (refuse o)
        | raises ↦ count_failed (refuse o)
      ] in
      if dlq.enabled then sent else o

  -- after the last retry
  unfoldable pub give_up : String → V → Output V → Output V × End
  give_up topic v o =
      (if dlq.enabled && not (str_eq topic dlq.topic) then send_to_dlq v o else o, returns false)

  -- The loop, with what is left of MAX_PRODUCE_RETRIES.
  unfoldable pub produce_loop : ℕ → String → V → Output V → Output V × End
  produce_loop zero topic v o = give_up topic v o
  produce_loop (suc left) topic v o =
      let retried = produce_loop left topic v (refuse o) in
      elim (p.attempt o.calls) [
        | queued ↦ (accept topic v o, returns true)
        | buffer_full ↦ retried
        | raises ↦ (refuse o, throws)
      ]

  unfoldable pub safe_produce : String → V → Output V → Output V × End
  safe_produce topic v o = produce_loop 10 topic v o

  -- What is done with a value when call `n` is the next one and its topic is given up: one more call,
  -- unless there is no dead-letter queue or it is the topic itself, and one counter that it raises.
  pub record GivenUp (topic : String) (v : V) (n : ℕ) (o o' : Output V) : Type 0 where
    pub asks : Bool
    pub asks_iff : asks ≡ true ↔ (dlq.enabled ≡ true) × (str_eq topic dlq.topic ≡ false)
    pub calls_eq : o'.calls ≡ n + (if asks then 1 else 0)
    pub taken_eq :
        o'.taken
        ≡ (if asks && is_queued (p.attempt n) then o.taken ++ (dlq.topic, v) ∷ [] else o.taken)
    pub enqueued_eq :
        o'.dlq_enqueued ≡ o.dlq_enqueued + (if asks && is_queued (p.attempt n) then 1 else 0)
    pub failed_eq :
        o'.dlq_failed ≡ o.dlq_failed + (if asks && not (is_queued (p.attempt n)) then 1 else 0)

  -- What an end means for the records and the calls, from an output on.
  abbrev pub Means : ℕ → String → V → Output V → Output V × End → Type 0
  Means left topic v o (o', returns true) =
      (o'.taken ≡ o.taken ++ (topic, v) ∷ []) × (o'.calls ≤ o.calls + left)
  Means left topic v o (o', returns false) =
      AllFull p left o.calls × GivenUp topic v (o.calls + left) o o'
  Means left topic v o (o', throws) = (o'.taken ≡ o.taken) × (o'.calls ≤ o.calls + left)

  give_up-GivenUp :
      (topic : String) (v : V) (o : Output V) → GivenUp topic v o.calls o (give_up topic v o).0
  unfolding give_up send_to_dlq
  give_up-GivenUp topic v o = record {
    asks = dlq.enabled && not (str_eq topic dlq.topic);
    asks_iff = ((λ h. ground (arith, h)), (λ h. ground (arith, h)));
    calls_eq = ground arith;
    taken_eq = ground arith;
    enqueued_eq = ground arith;
    failed_eq = ground arith;
  }

  GivenUp-refuse :
      (topic : String) (v : V) (n k : ℕ) (o o' : Output V)
      → n ≡ k
      → GivenUp topic v n (refuse o) o'
      → GivenUp topic v k o o'
  GivenUp-refuse topic v n k o o' eq g =
      subst (λ x. GivenUp topic v x o o') eq
        (record {
          asks = g.asks;
          asks_iff = g.asks_iff;
          calls_eq = g.calls_eq;
          taken_eq = g.taken_eq;
          enqueued_eq = g.enqueued_eq;
          failed_eq = g.failed_eq;
        })

  Means-refuse :
      (left : ℕ) (topic : String) (v : V) (o : Output V) (r : Output V × End)
      → p.attempt o.calls ≡ buffer_full
      → Means left topic v (refuse o) r
      → Means (suc left) topic v o r
  Means-refuse left topic v o (o', returns true) full h = (h.0, omega (arith, h.1))
  Means-refuse left topic v o (o', returns false) full h = (
    (full, h.0),
    GivenUp-refuse topic v (o.calls + 1 + left) (o.calls + suc left) o o' (omega arith) h.1,
  )
  Means-refuse left topic v o (o', throws) full h = (h.0, omega (arith, h.1))

  produce_loop-Means :
      (left : ℕ) (topic : String) (v : V) (o : Output V)
      → Means left topic v o (produce_loop left topic v o)
  unfolding produce_loop give_up
  produce_loop-Means zero topic v o = (
    tt,
    subst (λ n. GivenUp topic v n o (give_up topic v o).0) (right_zero o.calls)
        (give_up-GivenUp topic v o),
  )
    where
      right_zero : (a : ℕ) → a ≡ a + 0
      right_zero a = omega arith
  produce_loop-Means (suc left) topic v o =
      pick (p.attempt o.calls) refl (produce_loop-Means left topic v (refuse o))
    where
      pick :
          (a : Attempt)
          → p.attempt o.calls ≡ a
          → Means left topic v (refuse o) (produce_loop left topic v (refuse o))
          → Means (suc left) topic v o (elim a [
            | queued ↦ (accept topic v o, returns true)
            | buffer_full ↦ produce_loop left topic v (refuse o)
            | raises ↦ (refuse o, throws)
          ])
      pick queued eq h = (refl, omega arith)
      pick buffer_full eq h =
          Means-refuse left topic v o (produce_loop left topic v (refuse o)) eq h
      pick raises eq h = (refl, omega arith)

  -- A value is asked to be produced at most ten times. The result is true exactly if the producer took
  -- it; it is false only after ten calls found the queue full, and then there is one more call, for the
  -- dead-letter queue, if that is on and is not the topic itself: the record is taken and counted as
  -- enqueued if that call is queued, else counted as failed. An exception of the producer leaves no
  -- record.
  pub safe_produce-Means :
      (topic : String) (v : V) (o : Output V) → Means 10 topic v o (safe_produce topic v o)
  unfolding safe_produce
  safe_produce-Means topic v o = produce_loop-Means 10 topic v o
