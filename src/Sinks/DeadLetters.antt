-- ===== src/Sinks/DeadLetters.antt =====
-- Which failures reach the dead-letter queue (sink_manager.py).
use auditlens.Prelude.{
  ◌+◌, ◌≡◌, refl, sym, subst, ap, ◌∙◌, Bool, true, false, ◌||◌, Option, some, List, [], ◌∷◌, ◌++◌,
  String, arith, All, length, is_in, if◌then◌else◌,
}
use auditlens.Prelude.Eq.{string_eq}
use auditlens.Sinks.{
  failures_of, exception, WriteEnd, success, failure, SinkResult, result, Failure, collect,
  SinkCall, DlqSink, write_sinks, dedupe, route_failures, write, produce_each, kafka_write,
}

is_in_self : (x : String) (xs : List String) → is_in x (x ∷ xs) ≡ true
unfolding is_in
is_in_self x xs = ground (arith, string_eq.beq_iff x x)

module _ {E : Type 0} (id : E → String) where
  -- the ids of failures
  abbrev pub ids : List (Failure E) → List String
  ids [] = []
  ids (f ∷ fs) = id f.0 ∷ ids fs

  abbrev pub NoRepeat : List String → Type 0
  NoRepeat [] = Unit
  NoRepeat (x ∷ xs) = (is_in x xs ≡ false) × NoRepeat xs

  -- What was seen is not kept again.
  dedupe-unseen :
      (x : String) (seen : List String) (fs : List (Failure E))
      → is_in x seen ≡ true
      → is_in x (ids (dedupe id seen fs)) ≡ false
  unfolding dedupe is_in
  dedupe-unseen x seen [] h = refl
  dedupe-unseen x seen (f ∷ fs) h = ground (
    arith,
    dedupe-unseen x seen fs,
    dedupe-unseen x (id f.0 ∷ seen) fs,
    string_eq.beq_iff x (id f.0),
  )

  dedupe-NoRepeat :
      (seen : List String) (fs : List (Failure E)) → NoRepeat (ids (dedupe id seen fs))
  unfolding dedupe is_in
  dedupe-NoRepeat seen [] = tt
  dedupe-NoRepeat seen (f ∷ fs) =
      pick (is_in (id f.0) seen) (dedupe-NoRepeat seen fs) (dedupe-NoRepeat (id f.0 ∷ seen) fs)
        (dedupe-unseen (id f.0) (id f.0 ∷ seen) fs (is_in_self (id f.0) seen))
    where
      pick :
          (b : Bool)
          → NoRepeat (ids (dedupe id seen fs))
          → NoRepeat (ids (dedupe id (id f.0 ∷ seen) fs))
          → is_in (id f.0) (ids (dedupe id (id f.0 ∷ seen) fs)) ≡ false
          → NoRepeat (ids (if b then dedupe id seen fs else f ∷ dedupe id (id f.0 ∷ seen) fs))
      pick true known fresh unseen = known
      pick false known fresh unseen = (unseen, fresh)

  -- What is among the failures was seen, or is kept.
  dedupe-is_in :
      (x : String) (seen : List String) (fs : List (Failure E))
      → is_in x (ids fs) ≡ true
      → (is_in x seen || is_in x (ids (dedupe id seen fs))) ≡ true
  unfolding dedupe is_in
  dedupe-is_in x seen [] h = ground arith
  dedupe-is_in x seen (f ∷ fs) h = ground (
    arith,
    dedupe-is_in x seen fs,
    dedupe-is_in x (id f.0 ∷ seen) fs,
    string_eq.beq_iff x (id f.0),
  )

  is_in-append :
      (x : String) (fs gs : List (Failure E))
      → is_in x (ids (fs ++ gs)) ≡ (is_in x (ids fs) || is_in x (ids gs))
  unfolding is_in
  is_in-append x [] gs = refl
  is_in-append x (f ∷ fs) gs = ground (arith, is_in-append x fs gs)

  -- what holds all ids of a list holds that of each of its events
  each_in :
      (target : List String) (es : List E) (kind message : String)
      → ((x : String) → is_in x (ids (failures_of es kind message)) ≡ true → is_in x target ≡ true)
      → All (λ e. is_in (id e) target ≡ true) es
  unfolding is_in
  each_in target [] kind message h = tt
  each_in target (e ∷ es) kind message h = (
    h (id e) (is_in_self (id e) (ids (failures_of es kind message))),
    each_in target es kind message (λ x g. h x (ground arith)),
  )

  -- The events that a write leaves: those it reports, or all of them where it raises.
  abbrev pub failed_events : List E → WriteEnd E → List E
  failed_events events (result r) = r.failed_records
  failed_events events (exception message) = events

  collect-each_in :
      (target : List String) (events : List E) (name : String) (end : WriteEnd E)
      → ((x : String) → is_in x (ids (collect events name end).1) ≡ true → is_in x target ≡ true)
      → All (λ e. is_in (id e) target ≡ true) (failed_events events end)
  unfolding collect
  collect-each_in target events name (result r) h = each_in target r.failed_records _ _ h
  collect-each_in target events name (exception message) h = each_in target events _ _ h

  -- What an enabled sink leaves is among the targets.
  abbrev pub IsCovered : List E → List String → SinkCall E → Type 0
  IsCovered events target (name, (enabled, end)) =
      enabled ≡ true → All (λ e. is_in (id e) target ≡ true) (failed_events events end)

  write_sinks-IsCovered :
      (events : List E) (sinks : List (SinkCall E)) (target : List String)
      → ((x : String)
          → is_in x (ids (write_sinks id events sinks).1) ≡ true
          → is_in x target ≡ true)
      → All (IsCovered events target) sinks
  unfolding write_sinks
  write_sinks-IsCovered events [] target h = tt
  write_sinks-IsCovered events ((name, (enabled, end)) ∷ sinks) target h =
      let failed = (collect events name end).1 in
      let later = (write_sinks id events sinks).1 in
      (
        λ on.
            collect-each_in target events name end
              (λ x g. h x (ground (arith, is_in-append x failed later))),
        write_sinks-IsCovered events sinks target
            (λ x g. h x (ground (arith, is_in-append x failed later))),
      )

  route_failures-dedupe :
      (error_of : Failure E → Option String) (dlq : DlqSink) (rs : List (String × SinkResult E))
      (fs : List (Failure E))
      → dlq.enabled ≡ true
      → (route_failures id error_of (some dlq) rs fs).dead_letters ≡ dedupe id [] fs
  unfolding route_failures dedupe
  route_failures-dedupe error_of dlq rs [] on = ground arith
  route_failures-dedupe error_of dlq rs (f ∷ fs) on = ground arith

  -- With an enabled queue, the id of every event that an enabled sink reports as failed, and of every
  -- event of a batch whose write raises, is among the ids handed to the dead-letter queue, and no id
  -- is there twice: of events with one id only one is handed over.
  pub write-covers :
      (error_of : Failure E → Option String) (dlq : DlqSink) (sinks : List (SinkCall E))
      (events : List E)
      → dlq.enabled ≡ true
      → All (IsCovered events (ids (write id error_of (some dlq) sinks events).dead_letters)) sinks
        × NoRepeat (ids (write id error_of (some dlq) sinks events).dead_letters)
  unfolding write is_in
  write-covers error_of dlq sinks events on =
      let (rs, fs) = write_sinks id events sinks in
      let dead = route_failures-dedupe error_of dlq rs fs on in
      (
        write_sinks-IsCovered events sinks
            (ids (write id error_of (some dlq) sinks events).dead_letters)
            (λ x h. ap (λ ds. is_in x (ids ds)) dead ∙ dedupe-is_in x [] fs h),
        subst (λ ds. NoRepeat (ids ds)) (sym dead) (dedupe-NoRepeat [] fs),
      )

  produce_each-sum :
      (produces : E → Option String) (events : List E)
      → ((produce_each id produces events).records_written
            + (produce_each id produces events).records_failed
          ≡ length events)
        × (length (produce_each id produces events).failed_records
            ≡ (produce_each id produces events).records_failed)
  unfolding produce_each
  produce_each-sum produces [] = (omega arith, omega arith)
  produce_each-sum produces (e ∷ es) =
      (ground (arith, produce_each-sum produces es), ground (arith, produce_each-sum produces es))

  -- A Kafka sink that is enabled but not initialized fails without naming its events, so that, when
  -- it is the only sink, the dead-letter queue gets none of them.
  pub uninitialized-loses :
      (error_of : Failure E → Option String) (produces : E → Option String) (dlq : Option DlqSink)
      (events : List E)
      → ((kafka_write id produces true false events).status ≡ failure)
        × ((write id error_of dlq
              (("kafka", (true, result (kafka_write id produces true false events))) ∷ [])
              events).dead_letters
            ≡ [])
  unfolding write write_sinks collect route_failures kafka_write dedupe
  uninitialized-loses error_of produces dlq events = (refl, ground arith)

  -- An initialized Kafka sink accounts for each event once: as written, or as failed and named. It
  -- reports success only if it wrote them all.
  pub kafka_write-accounts :
      (produces : E → Option String) (events : List E)
      → ((kafka_write id produces true true events).records_written
            + (kafka_write id produces true true events).records_failed
          ≡ length events)
        × (length (kafka_write id produces true true events).failed_records
            ≡ (kafka_write id produces true true events).records_failed)
        × ((kafka_write id produces true true events).status ≡ success
            → (kafka_write id produces true true events).records_written ≡ length events)
  unfolding kafka_write
  kafka_write-accounts produces events =
      let (sum, named) = produce_each-sum produces events in (sum, named, λ h. ground (arith, sum))
