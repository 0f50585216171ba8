-- ===== src/Forwarder/Writers/Routed.antt =====
-- The queues of the writers and the commit (audit_forwarder.py).
use auditlens.Prelude.{
  ◌≡◌, ap, Bool, true, false, not, ◌&&◌, ◌||◌, List, [], ◌∷◌, ◌++◌, String, arith, is_in, any_of,
}
use auditlens.Criticality.Methods.{MethodRules}
use auditlens.Forwarder.{is_full, lane_full, handled, Message, Ending}
use auditlens.Forwarder.Offsets.{is_short}
use auditlens.Forwarder.Commit.{is_committed}
use auditlens.Forwarder.Durable.{is_failing_fate, is_failing, is_committed-IsDurable}
use auditlens.Forwarder.Writers.{LaneName, route_to_queue, target_of}

-- a critical or high method that is no dry run
abbrev pub is_priority : MethodRules → String → Bool → Bool
is_priority r method validate_only =
    not validate_only && (is_in method r.critical || is_in method r.high)

route_to_queue-full :
    (r : MethodRules) (room room_later : LaneName → Bool) (method : String) (validate_only : Bool)
    → is_priority r method validate_only ≡ true
    → (route_to_queue r true room room_later method validate_only).1 ≡ false
    → (route_to_queue r true room room_later method validate_only).0 ≡ lane_full
unfolding route_to_queue target_of
route_to_queue-full r room room_later method validate_only h out = ground (arith, h, out)

any_of-middle :
    (p : Message → Bool) (before after : List Message) (m : Message)
    → any_of p (before ++ m ∷ after) ≡ false
    → p m ≡ false
any_of-middle p [] after m h = ground (arith, h)
any_of-middle p (x ∷ before) after m h = any_of-middle p before after m (ground (arith, h))

-- When a batch is committed and the queues are on, every event of it with a critical or a high method
-- that was routed, was no dry run and was not short-circuited is in the queue of its writer, whether
-- or not an exception followed.
pub is_committed-route_to_queue :
    (r : MethodRules) (room room_later : LaneName → Bool) (method : String) (validate_only : Bool)
    (strict : Bool) (before after : List Message) (m : Message) (e : Ending) (raised : Bool)
    → is_priority r method validate_only ≡ true
    → is_short m ≡ false
    → m.fate ≡ handled (route_to_queue r true room room_later method validate_only).0 raised
    → is_committed strict (before ++ m ∷ after) e ≡ true
    → (route_to_queue r true room room_later method validate_only).1 ≡ true
is_committed-route_to_queue r room room_later method validate_only strict before after m e raised h
      short fate done =
    ground (arith, not_full, route_to_queue-full r room room_later method validate_only h)
  where
    not_failing : is_failing m ≡ false
    not_failing =
        any_of-middle is_failing before after m
          (is_committed-IsDurable strict (before ++ m ∷ after) e done).2

    not_full : is_full (route_to_queue r true room room_later method validate_only).0 ≡ false
    not_full = ground (arith, not_failing, short, ap is_failing_fate fate)
