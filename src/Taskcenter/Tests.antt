-- ===== src/Taskcenter/Tests.antt =====
-- A center with three sources, of which two exclude each other.
use rocksys.Base.{ℕ, pos, bytes_eq, List, [], ◌∷◌, Bytes, codes, none, some, ◌≡◌, refl, length}
use rocksys.Taskcenter.{Center, Spec, status_cancelled, status_done}
use rocksys.Taskcenter.Rules.{new, register_mutex_rules, submit, err_busy}
use rocksys.Taskcenter.Finish.{returned, split_lines, resolve_final_status}
use rocksys.Taskcenter.Runs.{Event, submits, ends, cancels, run, Orderly}
use rocksys.Taskcenter.Runs.Exclusion.{run_from_new-Orderly}
use rocksys.Taskcenter.Runs.Final.{Keeps, run-Keeps}

abbrev creators : List Bytes
creators = codes "migrate" ∷ codes "geoip " ∷ codes "sql" ∷ []

abbrev exclusive : List Bytes
exclusive = codes "migrate" ∷ codes "sql" ∷ []

abbrev center : Center ℕ
center = (register_mutex_rules (new (pos 17) creators) (codes "CreatedBy") exclusive []).0

abbrev by : Bytes → Spec
by name = record { created_by = name; title = codes "t" }

abbrev events : List (Event ℕ)
events =
    submits (by (codes "migrate")) (pos 100)
    ∷ submits (by (codes "sql")) (pos 110)
    ∷ submits (by (codes "geoip")) (pos 120)
    ∷ cancels (codes "17-1") (pos 130)
    ∷ ends 1 (pos 140) (returned none)
    ∷ submits (by (codes "sql")) (pos 150)
    ∷ []

run_from_new-Orderly_example : Orderly (run center events)
run_from_new-Orderly_example =
    run_from_new-Orderly (pos 17) creators (codes "CreatedBy") exclusive [] events

two_run : length (run center events).running ≡ 2
unfolding run register_mutex_rules new
two_run = refl

refuses_busy :
    (submit
      (run center (submits (by (codes "migrate")) (pos 100) ∷ []))
      (by (codes "sql"))
      (pos 110)).1
    ≡ err_busy (codes "t") (codes "sql") (codes "17-1") (codes "t")
unfolding run register_mutex_rules new
refuses_busy = refl

is_new : Orderly center
unfolding run
is_new = run_from_new-Orderly (pos 17) creators (codes "CreatedBy") exclusive [] []

run-Keeps_example : Keeps center.finished (run center events).finished
run-Keeps_example = run-Keeps center events is_new

first_line : split_lines (10 ∷ codes "a") ≡ codes "a" ∷ []
unfolding split_lines
first_line = refl

-- The second request moves the time of the first, and the task counts as done: it is asked to stop at 100,
-- returns at 120, and is asked again before the end is recorded.
second_request : resolve_final_status (some (pos 130)) (pos 120) none ≡ status_done
unfolding resolve_final_status
second_request = refl

first_request : resolve_final_status (some (pos 100)) (pos 120) none ≡ status_cancelled
unfolding resolve_final_status
first_request = refl
