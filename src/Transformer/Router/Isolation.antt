-- ===== src/Transformer/Router/Isolation.antt =====
-- A handler that fails stops no other one (event_router.py).
use auditlens.Prelude.{
  ℕ, ◌+◌, ◌≡◌, refl, sym, subst, ◌∙◌, Bool, true, false, List, [], ◌∷◌, ◌++◌, String, arith, length,
  length-append,
}
use mathlib.Core.List.{append-nil, append_assoc}
use auditlens.Transformer.CloudEvents.{RawEvent, AuditEvent}
use auditlens.Transformer.Handlers.{Value, Outcome, returned, raised, Handler}
use auditlens.Prelude.Assoc.{Dict}
use auditlens.Transformer.Router.{
  RoutingResult, asked, handled, failed, apply_handlers, route, start,
}

-- What a handler does with an event, whatever the others do.
pub data Verdict : Type 0 where
  declines applies fails : Verdict

abbrev verdict_of_handle : Outcome (Dict String Value) → Verdict
verdict_of_handle (returned more) = applies
verdict_of_handle (raised message) = fails

abbrev verdict_of : Outcome Bool → Outcome (Dict String Value) → Verdict
verdict_of (raised message) o = fails
verdict_of (returned false) o = declines
verdict_of (returned true) o = verdict_of_handle o

abbrev pub verdict : AuditEvent → Handler → Verdict
verdict event handler = verdict_of (handler.can_handle event) (handler.handle event)

abbrev note_applied : Verdict → String → List String → List String
note_applied applies name names = name ∷ names
note_applied declines name names = names
note_applied fails name names = names

abbrev note_failed : Verdict → ℕ → ℕ
note_failed fails n = n + 1
note_failed declines n = n
note_failed applies n = n

-- The names of the handlers that apply, in order, and how many fail.
unfoldable pub applying : AuditEvent → List Handler → List String
applying event [] = []
applying event (h ∷ hs) = note_applied (verdict event h) h.name (applying event hs)

unfoldable pub failing : AuditEvent → List Handler → ℕ
failing event [] = 0
failing event (h ∷ hs) = note_failed (verdict event h) (failing event hs)

-- What is added to a result: names of handlers, and a number of errors.
pub record Adds (names : List String) (n : ℕ) (before after : RoutingResult) : Type 0 where
  pub same_event : after.event ≡ before.event
  pub applied : after.handlers_applied ≡ before.handlers_applied ++ names
  pub failed : length after.errors ≡ length before.errors + n

module _ (name : String) (names : List String) (n : ℕ) (r end : RoutingResult) where
  Adds-failed :
      (message : String) → Adds names n (failed name message r) end → Adds names (n + 1) r end
  Adds-failed message g = record {
    same_event = g.same_event;
    applied = g.applied;
    failed = omega (arith, g.failed, length-append r.errors (_ ∷ []));
  }

  Adds-applied :
      (more : Dict String Value)
      → Adds names n (handled name (returned more) r) end
      → Adds (name ∷ names) n r end
  Adds-applied more g = record {
    same_event = g.same_event;
    applied = g.applied ∙ append_assoc r.handlers_applied (name ∷ []) names;
    failed = g.failed;
  }

asked-Adds :
    (name : String) (names : List String) (n : ℕ) (r : RoutingResult) (hs : List Handler)
    (o : Outcome Bool) (q : Outcome (Dict String Value))
    → ((s : RoutingResult) → s.event ≡ r.event → Adds names n s (apply_handlers hs s))
    → Adds
        (note_applied (verdict_of o q) name names)
        (note_failed (verdict_of o q) n)
        r
        (apply_handlers hs (asked name o q r))
asked-Adds name names n r hs (raised message) q ih =
    Adds-failed name names n r _ message (ih _ refl)
asked-Adds name names n r hs (returned false) q ih = ih r refl
asked-Adds name names n r hs (returned true) (raised message) ih =
    Adds-failed name names n r _ message (ih _ refl)
asked-Adds name names n r hs (returned true) (returned more) ih =
    Adds-applied name names n r _ more (ih _ refl)

apply_handlers-Adds :
    (hs : List Handler) (event : AuditEvent) (r : RoutingResult)
    → r.event ≡ event
    → Adds (applying event hs) (failing event hs) r (apply_handlers hs r)
unfolding apply_handlers applying failing
apply_handlers-Adds [] event r e = record {
  same_event = refl;
  applied = sym (append-nil r.handlers_applied);
  failed = omega arith;
}
apply_handlers-Adds (h ∷ hs) event r e =
    subst
      (λ v.
        Adds (note_applied (verdict v h) h.name (applying v hs))
          (note_failed (verdict v h) (failing v hs)) r
          (apply_handlers hs (asked h.name (h.can_handle r.event) (h.handle r.event) r)))
      e
      (asked-Adds h.name (applying r.event hs) (failing r.event hs) r hs (h.can_handle r.event)
        (h.handle r.event) (λ s k. apply_handlers-Adds hs r.event s k))

-- Whatever handlers there are and however they fail, the result names exactly those that accept the
-- event and return, in their order, and has one error for each handler that raises, after the error
-- of the parser if there is one.
pub route-Adds :
    (parse : RawEvent → Outcome AuditEvent) (hs : List Handler) (raw : RawEvent)
    → Adds
        (applying (start raw (parse raw)).event hs)
        (failing (start raw (parse raw)).event hs)
        (start raw (parse raw))
        (route parse hs raw)
unfolding route
route-Adds parse hs raw = apply_handlers-Adds hs (start raw (parse raw)).event _ refl
