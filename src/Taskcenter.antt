-- ===== src/Taskcenter.antt =====
-- internal/taskcenter/taskcenter.go: the tasks that run in the background, and the rules by which one keeps
-- another out. `D` is what a task tells of its progress besides a text. A text is the list
-- of its runes here, and a time is in nanoseconds; the zero time is `none`.
pub mod Rules
pub mod Finish
pub mod Views
pub mod Runs
mod Tests
use rocksys.Base.{
  ℕ, suc, ℤ, pos, bytes_eq, Bool, true, false, List, [], ◌∷◌, Bytes, codes, Option, none, some,
}
use rocksys.Base.Dict.{Dict}

pub data Status : Type 0 where
  status_running : Status
  status_done : Status
  status_failed : Status
  status_cancelled : Status

abbrev pub terminal : Status → Bool
terminal status_running = false
terminal s = true

abbrev pub task_keep_limit : ℕ
task_keep_limit = 500

abbrev pub result_max_runes : ℕ
result_max_runes = 2000

pub record Progress (D : Type 0) : Type 0 where
  pub text : Bytes
  pub detail : Option D

pub record Task (D : Type 0) : Type 0 where
  pub id : Bytes
  pub created_by : Bytes
  pub title : Bytes
  pub status : Status
  pub progress : Option (Progress D)
  pub result : Bytes
  pub created_at : ℤ
  pub finished_at : Option ℤ

-- `ref` tells the pointers apart, `cancel` is whether there is a function to cancel with, and
-- `is_cancelled` whether it has been called.
pub record Entry (D : Type 0) : Type 0 where
  pub ref : ℕ
  pub task : Task D
  pub cancel : Bool
  pub is_cancelled : Bool
  pub cancel_req_at : Option ℤ
  pub finish_at : Option ℤ
  pub progress : Option (Progress D)

pub record Center (D : Type 0) : Type 0 where
  pub epoch : ℤ
  pub seq : ℕ
  pub running : List (Entry D)
  pub finished : List (Entry D)
  pub allow_creators : Dict Bytes Bool
  pub mutex_task_field : Bytes
  pub mutex_list : List Bytes
  pub mutex_map : Dict Bytes (List Bytes)

-- The parts of a `Spec` that the center keeps; its `Run` is known by how it ends.
pub record Spec : Type 0 where
  pub created_by : Bytes
  pub title : Bytes
