-- ===== src/Baseline/Tests.antt =====
-- Runs of the address baseline and the pattern detector, and the theorems at concrete inputs.
use auditlens.Prelude.{
  ℕ, ◌≤◌, ◌≡◌, refl, Bool, true, false, not, Option, some, none, List, [], ◌∷◌, String, arith,
}
use auditlens.Baseline.{Pair, IpWatch, AlertFacts, detect_cloud_provider, first_block}
use auditlens.Baseline.Seen.{Events}
use auditlens.Baseline.Patterns.{PatternKey, PatternDetector}
use auditlens.Baseline.Patterns.Window.{
  Log, Calls, crossings, spec_crossings, crossings-spec_crossings,
}

abbrev unparsed : String → Option ℕ
unparsed s = none

abbrev public_ip : AlertFacts
public_ip = record {
  whitelisted = false;
  some_trusted = false;
  in_trusted = false;
  alert_on_new_ip = false;
  is_private = false;
  has_destinations = true;
}

abbrev ann : Pair
ann = ("ann", "8.8.8.8")

abbrev watch : IpWatch
watch = record { tracker = record { seen = []; queue = [] }; alerted = [] }

abbrev visits : Events
visits = (ann, 4000, public_ip) ∷ (ann, 9000, public_ip) ∷ []

-- 52.225.0.0 is in the block of Azure, and is taken for AWS.
shadowed_block : detect_cloud_provider (some 874577920) ≡ some ("aws", "us-east")
unfolding detect_cloud_provider first_block
shadowed_block = refl

abbrev key : PatternKey
key = "ann:DeleteTopics:orders"

abbrev detector : PatternDetector
detector = record { counts = []; queue = [] }

abbrev nothing : Log
nothing j = []

abbrev calls : Calls
calls = (key, 5) ∷ (key, 700) ∷ []

crossings-spec_crossings_example : crossings calls detector ≡ spec_crossings calls nothing
unfolding auditlens.Prelude.Assoc.lookup
crossings-spec_crossings_example =
    crossings-spec_crossings calls 0 detector nothing (record { same = λ j now h. refl })
      (omega arith, (omega arith, tt))
