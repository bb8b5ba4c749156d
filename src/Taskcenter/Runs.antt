-- ===== src/Taskcenter/Runs.antt =====
-- internal/taskcenter/taskcenter.go: what holds of a center in any sequence of calls.
pub mod Lists
pub mod Exclusion
pub mod Final
use mathlib.Core.Option
use rocksys.Base.{
  ℕ, suc, ◌-◌, ◌≤◌, ◌<◌, ◌+◌, ℤ, bytes_eq, Bool, true, false, ltb, eqb, List, [], ◌∷◌, ◌++◌, map,
  length, drop, Bytes, Option, none, some, if◌then◌else◌, ◌≡◌, refl, sym, ap, subst, ◌∙◌, arith,
  Bool-cases, inl, inr, if_true, if_false, length-append,
}
use rocksys.Base.Lists.{All, All-append}
use rocksys.Base.Dict.{Dict}
use rocksys.Taskcenter.{
  Status, status_running, terminal, Progress, Task, Entry, Center, Spec, task_keep_limit,
}
use rocksys.Taskcenter.Rules.{
  excludes, conflict_in, conflict_with, submit, admit, new_entry, new, register_mutex_rules,
  register_creators,
}
use rocksys.Taskcenter.Finish.{
  RunEnd, finish, finish_found, finish_entry, resolve_final_status, keep, remove_ref, find_ref,
  update_ref, with_progress, set_progress, cancel, cancel_found, asked_to_cancel,
}

-- A call, or the end of a task.
pub data Event (D : Type 0) : Type 0 where
  submits : Spec → (now : ℤ) → Event D
  ends : (ref : ℕ) → (at : ℤ) → RunEnd → Event D
  cancels : (id : Bytes) → (now : ℤ) → Event D
  progresses : (ref : ℕ) → Option (Progress D) → Event D

module _ {D : Type 0} where
  unfoldable pub step : Center D → Event D → Center D
  unfolding submit finish cancel set_progress
  step c (submits spec now) = (submit c spec now).0
  step c (ends ref at end) = finish c ref at end
  step c (cancels id now) = (cancel c id now).0
  step c (progresses ref p) = set_progress c ref p

  unfoldable pub run : Center D → List (Event D) → Center D
  unfolding step
  run c [] = c
  run c (event ∷ events) = run (step c event) events

  -- No task of the list excludes a later one.
  abbrev pub Apart : List Bytes → Dict Bytes (List Bytes) → List (Entry D) → Type 0
  Apart l m [] = Unit
  Apart l m (e ∷ es) =
      All (λ f. excludes l m e.task.created_by f.task.created_by ≡ false) es × Apart l m es

  abbrev pub Runs : Entry D → Type 0
  Runs e = terminal e.task.status ≡ false

  abbrev pub HasEnded : Entry D → Type 0
  HasEnded e = terminal e.task.status ≡ true

  -- Tasks that run do not exclude each other, tasks are finished when they are listed so, and of those
  -- only the last are kept.
  abbrev pub Orderly : Center D → Type 0
  Orderly c =
      Apart c.mutex_list c.mutex_map c.running
      × All Runs c.running
      × All HasEnded c.finished
      × (length c.finished ≤ task_keep_limit)
