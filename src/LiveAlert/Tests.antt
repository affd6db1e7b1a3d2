-- ===== src/LiveAlert/Tests.antt =====
-- Two alerts of a site.
use oblimap.Base.{none, some, [], arith, where_}
use oblimap.LiveAlert.{NewAlert, down, add}
use oblimap.LiveAlert.Dedup.{IsDeduplicated, add-IsDeduplicated}

empty-IsDeduplicated : IsDeduplicated []
unfolding IsDeduplicated where_
empty-IsDeduplicated t key real = omega arith

abbrev offline : NewAlert
offline = record {
  severity = down;
  title = "probe offline";
  message = "no answer";
  navigate_to = none;
  stable_key = some "probe:3";
}

add-IsDeduplicated_example : IsDeduplicated (add 2 20 1 offline (add 1 10 1 offline []).1).1
add-IsDeduplicated_example =
    add-IsDeduplicated 2 20 1 offline (add 1 10 1 offline []).1
      (add-IsDeduplicated 1 10 1 offline [] empty-IsDeduplicated)
