-- ===== src/Examples/Others.antt =====
-- Messages, the blocklist's file, object keys, detection and restarts.
use assemblage.Prelude.{
  not, ltb, if◌then◌else◌, Option, List, length, ℕ, zero, suc, ◌≡◌, ◌≢◌, refl, ◌⊎◌, true, false, [],
  ◌∷◌, none, some, Text, codes, list_eq, nat_eq, arith,
}
use Prim.Native.Nat.{◌^◌}
use assemblage.Enums.{BuildStatus}
use assemblage.Enums.Wire.{build_status_value-injective}
use assemblage.Mq.Publisher.{
  Attempt, lost, confirmed, publish, publish_error, verdict, AllLost, Decides, publish-Ends,
}
use assemblage.Blocklist.{parse, matches, empty}
use assemblage.Blocklist.File.{
  FileBlocklist, Stamp, found, text, check, due, check-current, check_truncated,
}
use assemblage.Storage.Layout.{build_dir, without_dashes}
use assemblage.Storage.Layout.Injectivity.{build_dir-injective}
use assemblage.Build.Detect.{get_build_system, priority_order}
use assemblage.Build.Detect.Choice.{
  named_by, IsFirst, get_build_system-IsFirst, get_build_system-not_buck, makefile_named,
}
use assemblage.Runtime.Service.{RestartPolicy, until_none, all_some}
use assemblage.Runtime.Supervisor.{Turn, supervise}
use assemblage.Runtime.Supervisor.Restarts.{delays, supervise-delays, supervise-stops}

abbrev second_time : ℕ → Attempt
second_time zero = lost
second_time (suc n) = confirmed

publish-Ends_example :
    (AllLost second_time 0 3 × (publish 3 second_time ≡ publish_error))
    ⊎ ((k : ℕ) × Decides second_time 0 3 k × (publish 3 second_time ≡ verdict (second_time k)))
publish-Ends_example = publish-Ends 3 second_time

abbrev fresh_list : FileBlocklist
fresh_list = record { interval = 10; current = empty; stamp = none; checked_at = none }

abbrev a_stamp : Stamp
a_stamp = record { mtime = 4; size = 3 }

check-current_example :
    ((check fresh_list 5 (found a_stamp) (text (codes "own"))).1.current ≡ empty)
      × ((check fresh_list 5 (found a_stamp) (text (codes "own"))).1.stamp ≡ none)
    ⊎ ((t : Text) × (s : Stamp) × (text (codes "own") ≡ text t)
        × (found a_stamp ≡ found s)
        × (fresh_list.stamp ≢ some s)
        × (due fresh_list.checked_at 5 10 ≡ true)
        × ((check fresh_list 5 (found a_stamp) (text (codes "own"))).0 ≡ some (parse t))
        × ((check fresh_list 5 (found a_stamp) (text (codes "own"))).1.current ≡ parse t)
        × ((check fresh_list 5 (found a_stamp) (text (codes "own"))).1.stamp ≡ some s))
check-current_example = check-current fresh_list 5 (found a_stamp) (text (codes "own"))

abbrev filled_list : FileBlocklist
filled_list = record fresh_list { current = record { owners = codes "own" ∷ []; repos = [] } }

check_truncated_example :
    matches
      (check filled_list 5 (found a_stamp) (text [])).1.current
      (codes "https://github.com/own/p")
    ≡ false
check_truncated_example =
    check_truncated filled_list 5 a_stamp (codes "https://github.com/own/p") refl (λ e. cc)

build_dir-injective_example :
    (codes "0123456789ab" ≡ codes "0123456789ab")
    × (without_dashes (codes "-O2") ≡ without_dashes (codes "O2"))
    × (codes "llvm" ≡ codes "llvm")
    × (codes "Debug" ≡ codes "Debug")
unfolding build_dir without_dashes nat_eq
build_dir-injective_example =
    build_dir-injective (codes "o") (codes "p") (codes "0123456789ab") (codes "0123456789ab")
      (codes "-O2") (codes "O2") (codes "llvm") (codes "llvm") (codes "Debug") (codes "Debug") refl
      refl refl refl refl refl

get_build_system-IsFirst_example :
    (named_by (codes "src/Makefile" ∷ []) (get_build_system (codes "src/Makefile" ∷ [])) ≡ true)
    × IsFirst
        (codes "src/Makefile" ∷ [])
        priority_order
        (get_build_system (codes "src/Makefile" ∷ []))
get_build_system-IsFirst_example =
    get_build_system-IsFirst (codes "src/Makefile" ∷ []) (codes "make") makefile_named

get_build_system-not_buck_example : get_build_system (codes "BUCK" ∷ []) ≢ codes "buck"
get_build_system-not_buck_example = get_build_system-not_buck (codes "BUCK" ∷ [])

abbrev policy : RestartPolicy
policy = record {
  restart = true;
  backoff = record { initial = 1; maximum = 60; factor = 2; jitter = 0 };
  reset_after = 300;
}

abbrev crash : Turn
crash = record { stopped = false; ran = 2; stopped_in_run = false; stopped_in_wait = false }

abbrev exact : ℕ → ℕ → ℕ
exact spread x = x

-- The largest float is below 2 ^ 1024.
abbrev power : ℕ → ℕ → Option ℕ
power b n = if ltb n 1024 then some (b ^ n) else none

abbrev crashes : List Turn
crashes = crash ∷ crash ∷ []

supervise-delays_example :
    ((supervise power exact policy crashes 1023).waits
      ≡ until_none (delays power exact policy 1023 crashes))
    × ((supervise power exact policy crashes 1023).runs ≡ (
        if all_some (delays power exact policy 1023 crashes)
        then 2
        else suc (length (until_none (delays power exact policy 1023 crashes)))))
    × ((supervise power exact policy crashes 1023).died
        ≡ not (all_some (delays power exact policy 1023 crashes)))
    × ((supervise power exact policy crashes 1023).ended
        ≡ not (all_some (delays power exact policy 1023 crashes)))
supervise-delays_example =
    supervise-delays power exact policy crashes 1023 refl
      ((refl, refl, refl, omega arith), ((refl, refl, refl, omega arith), tt))

abbrev stopping : Turn
stopping = record crash { stopped_in_run = true }

supervise-stops_example :
    supervise power exact policy (crash ∷ stopping ∷ crash ∷ []) 0
    ≡ supervise power exact policy (crash ∷ stopping ∷ []) 0
supervise-stops_example =
    supervise-stops power exact policy (crash ∷ []) (crash ∷ []) stopping 0 refl

build_status_value-injective_example : BuildStatus.success ≡ BuildStatus.success
build_status_value-injective_example =
    build_status_value-injective BuildStatus.success BuildStatus.success refl
