-- ===== src/Utils/Monitor.antt =====
-- Supervised tasks: `TaskMonitor` and `spawn` of src/utils.rs. The watch channel is the failure that it
-- holds and the number of times that its receivers were woken.
use p2p_tunnler.Prelude.{ℕ, suc, ◌≡◌, refl, ap, ◌∙◌, Option, none, some, List, [], ◌∷◌}
use Prim.Native.String.{String}

pub record TaskFailure : Type 0 where
  pub task : String
  pub error : String

pub record TaskMonitor : Type 0 where
  pub failure : Option TaskFailure
  pub wakes : ℕ

-- `TaskMonitor::new`.
abbrev pub new_monitor : TaskMonitor
new_monitor = record { failure = none; wakes = 0 }

abbrev pub report_on : Option TaskFailure → String → String → TaskMonitor → TaskMonitor
report_on (some failure) task error m = m
report_on none task error m = record {
  failure = some (record { task = task; error = error });
  wakes = suc m.wakes;
}

unfoldable pub report_failure : String → String → TaskMonitor → TaskMonitor
report_failure task error m = report_on m.failure task error m

-- How a task's future ends: each of the three ends is a failure.
pub data Ending : Type 0 where
  returned : Ending
  failed : String → Ending
  panicked : Ending

abbrev pub error_of : Ending → String
error_of returned = "task ended unexpectedly"
error_of (failed error) = error
error_of panicked = "task panicked"

-- What the task that `spawn` starts does when its future has ended.
unfoldable pub ended : String → Ending → TaskMonitor → TaskMonitor
ended task ending m = report_failure task (error_of ending) m

abbrev pub all_ended : List (String × Ending) → TaskMonitor → TaskMonitor
all_ended [] m = m
all_ended ((task, ending) ∷ rest) m = all_ended rest (ended task ending m)

kept :
    (ends : List (String × Ending)) (m : TaskMonitor) (failure : TaskFailure)
    → m.failure ≡ some failure
    → all_ended ends m ≡ m
unfolding ended report_failure
kept [] m failure h = refl
kept ((task, ending) ∷ rest) m failure h =
    ap (λ f. all_ended rest (report_on f task (error_of ending) m)) h ∙ kept rest m failure h

-- However many tasks end, and in whatever way, the failure that supervision reports is that of the
-- first one to end, and its receivers are woken exactly once.
pub all_ended-first :
    (task : String) (ending : Ending) (rest : List (String × Ending))
    → all_ended ((task, ending) ∷ rest) new_monitor
      ≡ record { failure = some (record { task = task; error = error_of ending }); wakes = 1 }
unfolding ended report_failure
all_ended-first task ending rest =
    kept rest _ (record { task = task; error = error_of ending }) refl
