-- ===== src/Criticality/Stats.antt =====
-- The counts of `get_criticality_stats` (criticality.py).
use auditlens.Prelude.{◌+◌, ◌≤◌, ◌≡◌, List, [], ◌∷◌, arith, length}
use auditlens.Criticality.Methods.{MethodRules}
use auditlens.Criticality.{
  AuditEvent, ClassificationResult, CriticalityStats, no_counts, count_result, count_events,
  calculate_criticality, get_criticality_stats,
}

-- The levels partition the events, and no other count passes the total.
pub record IsConsistent (s : CriticalityStats) : Type 0 where
  pub levels : s.critical_count + s.high_count + s.medium_count + s.low_count ≡ s.total
  pub security : s.security_events ≤ s.total
  pub deleted : s.deletions ≤ s.total
  pub raised : s.elevated_count ≤ s.total

count_result-IsConsistent :
    (c : ClassificationResult) (s : CriticalityStats)
    → IsConsistent s
    → IsConsistent (count_result c s) × ((count_result c s).total ≡ s.total + 1)
unfolding count_result
count_result-IsConsistent c s v = ground arith

count_events-IsConsistent :
    (r : MethodRules) (es : List AuditEvent) (s : CriticalityStats)
    → IsConsistent s
    → IsConsistent (count_events r es s) × ((count_events r es s).total ≡ s.total + length es)
unfolding count_events
count_events-IsConsistent r [] s v = (v, omega arith)
count_events-IsConsistent r (e ∷ es) s v =
    let (v', t) = count_result-IsConsistent (calculate_criticality r e) s v in
    let (v'', t') =
      count_events-IsConsistent r es (count_result (calculate_criticality r e) s) v' in
    (v'', omega (arith, t, t'))

-- Whatever the events, the four levels partition them, and the total is their number.
pub stats-IsConsistent :
    (r : MethodRules) (es : List AuditEvent)
    → IsConsistent (get_criticality_stats r es) × ((get_criticality_stats r es).total ≡ length es)
unfolding get_criticality_stats
stats-IsConsistent r es =
    let (v, t) = count_events-IsConsistent r es no_counts (omega arith) in (v, omega (arith, t))
