-- ===== src/Breaker/Tests.antt =====
-- Runs of the circuit breaker, and the theorems at concrete inputs.
use auditlens.Prelude.{ℕ, ◌+◌, ◌≡◌, refl, some, List, [], ◌∷◌, arith, if◌then◌else◌}
use auditlens.Breaker.{
  CircuitBreakerConfig, CircuitBreaker, closed, opened, half_open, admitted, rejected, init, admit,
}
use auditlens.Breaker.Invariant.{IsUsable, IsValid}
use auditlens.Breaker.Calls.{
  Pool, Readings, Step, start, here, next, IsAccounted, fresh, fresh-IsAccounted,
}
use auditlens.Breaker.Window.{Report, success, failure, has_burst, reports, reports-has_burst}

abbrev config : CircuitBreakerConfig
config = record {
  failure_threshold = 2;
  recovery_timeout = 30;
  half_open_requests = 2;
  failure_window = 60;
}

abbrev breaker : CircuitBreaker
breaker = init "sink" config

abbrev tripped : CircuitBreaker
tripped = record breaker { state = opened; opened_at = some 100 }

abbrev probing : CircuitBreaker
probing = record breaker { state = half_open; opened_at = some 100 }

abbrev at : ℕ → Readings
at t = record { entry = t; message = t; stamp = t; failed = t; reopened = t }

config-IsUsable : IsUsable config
config-IsUsable = omega arith

-- A success between the failures does not keep the circuit closed.
abbrev mixed : List Report
mixed = failure 10 10 10 ∷ success 20 ∷ failure 30 30 30 ∷ []

reports-has_burst_example :
    (reports mixed breaker).state ≡ (if has_burst 60 2 [] mixed then opened else closed)
reports-has_burst_example = reports-has_burst 60 2 mixed 0 [] breaker (omega arith) (ground arith)

first_admitted : (admit 5 5 breaker).1 ≡ admitted
unfolding admit
first_admitted = refl

abbrev started : Pool
started = record { breaker = (admit 5 5 breaker).0; running = 0 + 1; lost = 0 }

start_one : Step (fresh "sink" config) started
start_one = start (fresh "sink" config) 5 5 first_admitted

fresh-IsAccounted_example : IsValid started.breaker × IsAccounted started
fresh-IsAccounted_example =
    fresh-IsAccounted "sink" config started config-IsUsable (next here start_one)

rejected_early : (admit 120 121 tripped).1 ≡ rejected 9
unfolding admit
rejected_early = refl
