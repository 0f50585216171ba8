-- ===== src/Notifications/Notify/Wanted.antt =====
-- Which destinations `notify` starts a thread for (notifier.py).
use auditlens.Prelude.{◌<◌, ◌≡◌, true, false, str_eq}
use auditlens.Prelude.Eq.{string_eq}
use auditlens.Notifications.{Event, should_notify}
use auditlens.Notifications.Notify.{Task, send_event, send_burst}

-- An event goes only to a destination that is enabled, matches it and takes events one by one, and
-- a summary only to one that has a limit and from which something was held back.
pub IsWanted : Event → Task → Type 0
IsWanted event (send_event e d) =
    (e ≡ event)
    × (d.enabled ≡ true)
    × (should_notify event d ≡ true)
    × (str_eq d.mode "digest" ≡ false)
IsWanted event (send_burst d summary) =
    (d.enabled ≡ true) × (0 < d.rate_limit_per_minute) × (0 < summary.count)
