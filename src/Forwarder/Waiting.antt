-- ===== src/Forwarder/Waiting.antt =====
-- The wait for the writer of bulk noise ends when it has flushed the batch (audit_forwarder.py).
use auditlens.Prelude.{
  ℕ, ◌≡◌, refl, Bool, true, false, none, some, List, [], ◌∷◌, arith, if◌then◌else◌,
}
use auditlens.Prelude.Eq.{number_eq, string_eq, pair_eq}
use auditlens.Prelude.Assoc.{lookup, insert}
use auditlens.Forwarder.{
  Partition, Offsets, Message, is_above, raise_to, split_noise, reaches, caught_up,
}
use auditlens.Forwarder.Offsets.{raise_to-reaches, key_eq, is_short, lookup-raise_to}
use auditlens.Forwarder.ShortCircuit.{Flushed, record_persisted}

-- the tags of the messages of a batch that were put into the bulk queue
unfoldable pub queued_items : List Message → Flushed
queued_items [] = []
queued_items (m ∷ ms) =
    if is_short m then some (m.partition, m.offset) ∷ queued_items ms else queued_items ms

record_persisted-reaches :
    (items : Flushed) (j : Partition) (n : ℕ) (d : Offsets)
    → reaches n (lookup j d) ≡ true
    → reaches n (lookup j (record_persisted items d)) ≡ true
unfolding record_persisted
record_persisted-reaches [] j n d h = h
record_persisted-reaches (none ∷ items) j n d h = record_persisted-reaches items j n d h
record_persisted-reaches (some (key, o) ∷ items) j n d h =
    record_persisted-reaches items j n (raise_to key o d) (raise_to-reaches key j o n d h)

caught_up-insert :
    (key : Partition) (o : ℕ) (d persisted : Offsets)
    → caught_up d persisted ≡ true
    → reaches o (lookup key persisted) ≡ true
    → caught_up (insert key o d) persisted ≡ true
unfolding caught_up insert
caught_up-insert key o [] persisted h k = ground (arith, k)
caught_up-insert key o ((j, n) ∷ d) persisted h k =
    ground (arith, h, k, caught_up-insert key o d persisted)

caught_up-raise_to :
    (key : Partition) (o : ℕ) (d persisted : Offsets)
    → caught_up d persisted ≡ true
    → reaches o (lookup key persisted) ≡ true
    → caught_up (raise_to key o d) persisted ≡ true
unfolding raise_to
caught_up-raise_to key o d persisted h k = raised (is_above o (lookup key d))
  where
    raised : (b : Bool) → caught_up (if b then insert key o d else d) persisted ≡ true
    raised true = caught_up-insert key o d persisted h k
    raised false = h

reaches-raise_to :
    (key : Partition) (o : ℕ) (d : Offsets) → reaches o (lookup key (raise_to key o d)) ≡ true
reaches-raise_to key o d = ground (arith, lookup-raise_to key key o d, key_eq.beq_iff key key)

-- Once the bulk writer has flushed what a batch put into its queue, in the order of the batch and
-- whatever it had flushed before, the wait for the noise of that batch succeeds.
pub caught_up-record_persisted :
    (ms : List Message) (persisted : Offsets)
    → caught_up (split_noise ms).1 (record_persisted (queued_items ms) persisted) ≡ true
unfolding split_noise queued_items caught_up record_persisted
caught_up-record_persisted [] persisted = refl
caught_up-record_persisted (m ∷ ms) persisted =
    split (is_short m) (caught_up-record_persisted ms persisted)
      (caught_up-record_persisted ms (raise_to m.partition m.offset persisted))
  where
    noise : Offsets
    noise = (split_noise ms).1

    split :
        (b : Bool)
        → caught_up noise (record_persisted (queued_items ms) persisted) ≡ true
        → caught_up noise
            (record_persisted (queued_items ms) (raise_to m.partition m.offset persisted))
          ≡ true
        → caught_up
            (if◌then◌else◌ {A = List Message × Offsets} b
              ((split_noise ms).0, raise_to m.partition m.offset noise)
              (m ∷ (split_noise ms).0, noise)).1
            (record_persisted
              (if b then some (m.partition, m.offset) ∷ queued_items ms else queued_items ms)
              persisted)
          ≡ true
    split true other same = caught_up-raise_to m.partition m.offset noise _ same (
        record_persisted-reaches (queued_items ms) m.partition m.offset _
          (reaches-raise_to m.partition m.offset persisted))
    split false other same = other
