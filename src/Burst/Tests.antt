-- ===== src/Burst/Tests.antt =====
-- Runs of the burst detector, and the theorems at concrete inputs.
use auditlens.Prelude.{ℕ, ◌≡◌, ◌≢◌, refl, true, false, List, [], ◌∷◌, String, arith, eq_iff}
use auditlens.Prelude.Assoc.{lookup, insert}
use auditlens.Burst.{BurstDetector, created, create, drop_old, recent, store, record_event}
use auditlens.Burst.Window.{Agrees, Log, run, spec_run, run-spec_run}

abbrev detector : BurstDetector
detector = record { count_threshold = 2; window_seconds = 10; has_notifier = true; failures = [] }

abbrev failures : List (String × ℕ)
failures = ("a", 1) ∷ ("b", 5) ∷ ("a", 9) ∷ ("a", 12) ∷ ("b", 40) ∷ []

run-failures : run failures detector ≡ false ∷ false ∷ true ∷ false ∷ false ∷ []
unfolding run record_event recent store drop_old lookup insert
run-failures = refl

create-detector : create 2 10 true ≡ created detector
unfolding create
create-detector = refl

b_not_a : ◌≢◌ {A = String} "b" "a"
b_not_a = ground (arith, eq_iff "b" "a")

abbrev no_failures : Log
no_failures a = []

detector-Agrees : Agrees 2 10 0 detector no_failures
unfolding lookup
detector-Agrees = record {
  threshold_eq = refl;
  window_eq = refl;
  same = λ a now h. refl;
  ascends = λ a. omega arith;
}

run-spec_run_example : run failures detector ≡ spec_run 2 10 failures no_failures
run-spec_run_example =
    run-spec_run 2 10 failures 0 detector no_failures detector-Agrees (omega arith)
