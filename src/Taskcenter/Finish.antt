-- ===== src/Taskcenter/Finish.antt =====
-- internal/taskcenter/taskcenter.go: the end of a task, the request to cancel it, its progress.
use mathlib.Core.List.{reverse}
use rocksys.Base.{
  ℕ, ◌-◌, ℤ, ltb_ℤ, bytes_eq, Bool, true, false, ltb, leb, eqb, not, List, [], ◌∷◌, ◌++◌, length,
  take, drop, Bytes, codes, eqb_bytes, Option, none, some, if◌then◌else◌,
}
use rocksys.Taskcenter.{
  Status, status_done, status_failed, status_cancelled, terminal, Progress, Task, Entry, Center,
  task_keep_limit, result_max_runes,
}

-- How a `Run` ends: it returns, with an error or without, or panics with a value and a stack.
pub data RunEnd : Type 0 where
  returned : Option Bytes → RunEnd
  panicked : (value stack : Bytes) → RunEnd

abbrev push_line : List Bytes → Bytes → List Bytes
push_line out [] = out
push_line out (c ∷ line) = out ++ (c ∷ line) ∷ []

-- `line` is what has been read of the line, backwards.
unfoldable pub split_lines_from : List Bytes → Bytes → Bytes → List Bytes
split_lines_from out line [] = push_line out (reverse line)
split_lines_from out line (c ∷ s) = elim (eqb c 10) [
  | true ↦ split_lines_from (push_line out (reverse line)) [] s
  | false ↦ split_lines_from out (c ∷ line) s
]

unfoldable pub split_lines : Bytes → List Bytes
unfolding split_lines_from
split_lines s = split_lines_from [] [] s

abbrev with_stack : Bytes → List Bytes → Bytes
with_stack err [] = err
with_stack err (line ∷ lines) = err ++ codes "（堆栈首行：" ++ line ++ codes "）"

unfoldable pub run_error : RunEnd → Option Bytes
unfolding split_lines
run_error (returned err) = err
run_error (panicked value stack) =
    some (with_stack (codes "任务执行 panic：" ++ value) (split_lines stack))

unfoldable pub truncate_result : Bytes → Bytes
truncate_result s =
    if leb (length s) result_max_runes
    then s
    else take result_max_runes s ++ codes "…（错误信息超长已截断，完整信息见业务日志）"

abbrev pub in_time : Option ℤ → ℤ → Bool
in_time none finish_at = false
in_time (some at) finish_at = not (ltb_ℤ finish_at at)

abbrev natural : Option Bytes → Status
natural none = status_done
natural (some err) = status_failed

unfoldable pub resolve_final_status : Option ℤ → ℤ → Option Bytes → Status
resolve_final_status cancel_req_at finish_at err =
    if in_time cancel_req_at finish_at then status_cancelled else natural err

abbrev unfailed_text : Status → Bytes
unfailed_text status_cancelled = codes "任务已取消"
unfailed_text s = codes "任务完成"

unfoldable pub result_text : Status → Option Bytes → Bytes
unfolding truncate_result
result_text status (some err) = truncate_result err
result_text status none = unfailed_text status

module _ {D : Type 0} where
  unfoldable pub finish_entry : Entry D → ℤ → Option Bytes → Entry D
  unfolding resolve_final_status result_text
  finish_entry e at err =
      let status = resolve_final_status e.cancel_req_at at err in
      record e {
        cancel = false;
        finish_at = some at;
        task = record e.task {
          status = status;
          result = result_text status err;
          finished_at = some at;
        };
      }

  -- Only the last ones are kept.
  unfoldable pub keep : List (Entry D) → List (Entry D)
  keep es = if ltb task_keep_limit (length es) then drop (length es - task_keep_limit) es else es

  unfoldable pub find_ref : ℕ → List (Entry D) → Option (Entry D)
  find_ref ref [] = none
  find_ref ref (e ∷ es) = let rest = find_ref ref es in if eqb e.ref ref then some e else rest

  unfoldable pub remove_ref : ℕ → List (Entry D) → List (Entry D)
  remove_ref ref [] = []
  remove_ref ref (e ∷ es) = let rest = remove_ref ref es in if eqb e.ref ref then es else e ∷ rest

  unfoldable pub finish_found : Center D → ℕ → ℤ → Option Bytes → Option (Entry D) → Center D
  unfolding finish_entry keep remove_ref
  finish_found c ref at err none = c
  finish_found c ref at err (some e) = record c {
    finished = keep (c.finished ++ finish_entry e at err ∷ []);
    running = remove_ref ref c.running;
  }

  -- The end of `run`, once the task `ref` has ended at the time `at`.
  unfoldable pub finish : Center D → ℕ → ℤ → RunEnd → Center D
  unfolding finish_found run_error find_ref
  finish c ref at end = finish_found c ref at (run_error end) (find_ref ref c.running)

  unfoldable pub find_id : Bytes → List (Entry D) → Option (Entry D)
  unfolding eqb_bytes
  find_id id [] = none
  find_id id (e ∷ es) = let rest = find_id id es in if eqb_bytes e.task.id id then some e else rest

  abbrev pub or_entry : Option (Entry D) → Option (Entry D) → Option (Entry D)
  or_entry none f = f
  or_entry (some e) f = some e

  unfoldable pub find_by_id : Center D → Bytes → Option (Entry D)
  unfolding find_id
  find_by_id c id = or_entry (find_id id c.running) (find_id id c.finished)

  unfoldable pub update_ref : ℕ → (Entry D → Entry D) → List (Entry D) → List (Entry D)
  update_ref ref f [] = []
  update_ref ref f (e ∷ es) =
      let rest = update_ref ref f es in if eqb e.ref ref then f e ∷ es else e ∷ rest

  abbrev pub asked_to_cancel : ℤ → Entry D → Entry D
  asked_to_cancel now e = record e {
    is_cancelled = if e.cancel then true else e.is_cancelled;
    cancel_req_at = some now;
  }

  unfoldable pub with_progress : Progress D → Entry D → Entry D
  with_progress p e = if terminal e.task.status then e else record e { progress = some p }

  unfoldable pub set_progress : Center D → ℕ → Option (Progress D) → Center D
  unfolding with_progress update_ref
  set_progress c ref none = c
  set_progress c ref (some p) = record c {
    running = update_ref ref (with_progress p) c.running;
    finished = update_ref ref (with_progress p) c.finished;
  }

-- The outcome of `Cancel`: no such task, one that has ended, or a request.
pub data Cancelled (D : Type 0) : Type 0 where
  not_found : Cancelled D
  already_over : Task D → Cancelled D
  requested : Task D → Cancelled D

module _ {D : Type 0} where
  unfoldable pub cancel_found : Center D → ℤ → Option (Entry D) → Center D × Cancelled D
  unfolding update_ref
  cancel_found c now none = (c, not_found)
  cancel_found c now (some e) = if terminal e.task.status then (c, already_over e.task) else (
    record c { running = update_ref e.ref (asked_to_cancel now) c.running },
    requested e.task,
  )

  unfoldable pub cancel : Center D → Bytes → ℤ → Center D × Cancelled D
  unfolding cancel_found find_by_id
  cancel c id now = cancel_found c now (find_by_id c id)
