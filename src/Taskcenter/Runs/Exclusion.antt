-- ===== src/Taskcenter/Runs/Exclusion.antt =====
-- internal/taskcenter/taskcenter.go: the center keeps tasks apart that exclude each other.
use rocksys.Base.{
  trim, is_space, is_nil, eqb_bytes, codes, ℕ, suc, ◌-◌, ◌≤◌, ℤ, bytes_eq, Bool, true, false, ltb,
  List, [], ◌∷◌, ◌++◌, length, drop, Bytes, Option, none, some, ◌≡◌, refl, sym, ap, subst, ◌∙◌,
  arith, Bool-cases, inl, inr, if_true, if_false, length-drop, zero,
}
use rocksys.Base.Lists.{All, All-append}
use rocksys.Base.Dict.{Dict, get}
use rocksys.Taskcenter.{terminal, Progress, Task, Entry, Center, Spec, task_keep_limit}
use rocksys.Taskcenter.Rules.{
  conflict_with, submit, admit, new_entry, Submitted, flag, new, register_mutex_rules,
  register_creators,
}
use rocksys.Taskcenter.Finish.{
  finish, finish_found, finish_entry, resolve_final_status, keep, find_ref, with_progress,
  set_progress, cancel, Cancelled, find_by_id, cancel_found, asked_to_cancel,
}
use rocksys.Taskcenter.Runs.{
  Event, submits, ends, cancels, progresses, step, run, Apart, Runs, HasEnded, Orderly,
}
use rocksys.Taskcenter.Runs.Lists.{
  All-remove, Apart-remove, Apart-last, conflict_in-none, All-update, Apart-update, length-update,
}

final :
    (a : Option ℤ) (at : ℤ) (err : Option Bytes) → terminal (resolve_final_status a at err) ≡ true
unfolding resolve_final_status
final a at none = ground arith
final a at (some err) = ground arith

module _ {D : Type 0} where
  with_progress-task : (p : Progress D) (e : Entry D) → (with_progress p e).task ≡ e.task
  unfolding with_progress
  with_progress-task p e = ground arith

  All-drop : (P : Entry D → Type 0) (n : ℕ) (es : List (Entry D)) → All P es → All P (drop n es)
  All-drop P zero es h = h
  All-drop P (suc n) [] h = h
  All-drop P (suc n) (e ∷ es) h = All-drop P n es h.1

  keep-All : (P : Entry D → Type 0) (es : List (Entry D)) → All P es → All P (keep es)
  unfolding keep
  keep-All P es h = elim (Bool-cases (ltb task_keep_limit (length es))) [
    | inl q ↦ subst (All P) (sym (if_true _ _ q)) (All-drop P (length es - task_keep_limit) es h)
    | inr q ↦ subst (All P) (sym (if_false _ _ q)) h
  ]

  keep-length : (es : List (Entry D)) → length (keep es) ≤ task_keep_limit
  unfolding keep
  keep-length es = ground (arith, length-drop (length es - task_keep_limit) es (omega arith))

  admit-Orderly :
      (c : Center D) (spec : Spec) (now : ℤ) (o : Option (Entry D))
      → conflict_with c spec.created_by ≡ o
      → Orderly c
      → Orderly (admit c spec now o).0
  unfolding admit new_entry conflict_with
  admit-Orderly c spec now none n (apart, runs, over, few) = (
    Apart-last c.mutex_list c.mutex_map c.running _ apart
        (conflict_in-none c.mutex_list c.mutex_map c.running spec.created_by n),
    All-append Runs c.running _ runs (refl, tt),
    over,
    few,
  )
  admit-Orderly c spec now (some e) n h = h

  submit-Orderly :
      (c : Center D) (spec : Spec) (now : ℤ) → Orderly c → Orderly (submit c spec now).0
  unfolding submit
  submit-Orderly c spec now h = elim (Bool-cases (flag (get c.allow_creators spec.created_by))) [
    | inl q ↦
        subst (λ (r : Center D × Submitted). Orderly r.0) (sym (if_true _ _ q))
          (admit-Orderly c spec now (conflict_with c spec.created_by) refl h)
    | inr q ↦ subst (λ (r : Center D × Submitted). Orderly r.0) (sym (if_false _ _ q)) h
  ]

  finish_found-Orderly :
      (c : Center D) (ref : ℕ) (at : ℤ) (err : Option Bytes) (o : Option (Entry D))
      → Orderly c
      → Orderly (finish_found c ref at err o)
  unfolding finish_found finish_entry
  finish_found-Orderly c ref at err none h = h
  finish_found-Orderly c ref at err (some e) (apart, runs, over, few) = (
    Apart-remove c.mutex_list c.mutex_map ref c.running apart,
    All-remove Runs ref c.running runs,
    keep-All HasEnded (c.finished ++ _ ∷ [])
        (All-append HasEnded c.finished _ over (final e.cancel_req_at at err, tt)),
    keep-length (c.finished ++ _ ∷ []),
  )

  cancel_found-Orderly :
      (c : Center D) (now : ℤ) (o : Option (Entry D)) → Orderly c → Orderly (cancel_found c now o).0
  unfolding cancel_found
  cancel_found-Orderly c now none h = h
  cancel_found-Orderly c now (some e) h = elim (Bool-cases (terminal e.task.status)) [
    | inl q ↦ subst (λ (r : Center D × Cancelled D). Orderly r.0) (sym (if_true _ _ q)) h
    | inr q ↦
        subst (λ (r : Center D × Cancelled D). Orderly r.0) (sym (if_false _ _ q))
          (
            Apart-update (asked_to_cancel now) c.mutex_list c.mutex_map e.ref c.running (λ f. refl)
                h.0,
            All-update (asked_to_cancel now) Runs e.ref c.running (λ f r. r) h.1,
            h.2,
            h.3,
          )
  ]

  set_progress-Orderly :
      (c : Center D) (ref : ℕ) (p : Option (Progress D))
      → Orderly c
      → Orderly (set_progress c ref p)
  unfolding set_progress
  set_progress-Orderly c ref none h = h
  set_progress-Orderly c ref (some p) (apart, runs, over, few) = (
    Apart-update (with_progress p) c.mutex_list c.mutex_map ref c.running (with_progress-task p)
        apart,
    All-update (with_progress p) Runs ref c.running (kept false) runs,
    All-update (with_progress p) HasEnded ref c.finished (kept true) over,
    subst (λ n. n ≤ task_keep_limit) (sym (length-update (with_progress p) ref c.finished)) few,
  )
    where
      kept :
          (b : Bool) (e : Entry D)
          → terminal e.task.status ≡ b
          → terminal (with_progress p e).task.status ≡ b
      kept b e = subst (λ (t : Task D). terminal t.status ≡ b) (sym (with_progress-task p e))

  register_creators-empty :
      (names : List Bytes) (c : Center D)
      → (c.running ≡ []) × (c.finished ≡ [])
      → ((register_creators c names).running ≡ []) × ((register_creators c names).finished ≡ [])
  unfolding register_creators
  register_creators-empty [] c h = h
  register_creators-empty (n ∷ names) c h =
      register_creators-empty names _ (elim (Bool-cases (is_nil (trim is_space n))) [
        | inl q ↦ (
          ap (λ (d : Center D). d.running) (if_true _ _ q) ∙ h.0,
          ap (λ (d : Center D). d.finished) (if_true _ _ q) ∙ h.1,
        )
        | inr q ↦ (
          ap (λ (d : Center D). d.running) (if_false _ _ q) ∙ h.0,
          ap (λ (d : Center D). d.finished) (if_false _ _ q) ∙ h.1,
        )
      ])

  pub step-Orderly : (c : Center D) (event : Event D) → Orderly c → Orderly (step c event)
  unfolding step finish cancel
  step-Orderly c (submits spec now) h = submit-Orderly c spec now h
  step-Orderly c (ends ref at end) h = finish_found-Orderly c ref at _ (find_ref ref c.running) h
  step-Orderly c (cancels id now) h = cancel_found-Orderly c now (find_by_id c id) h
  step-Orderly c (progresses ref p) h = set_progress-Orderly c ref p h

  run-Orderly : (c : Center D) (events : List (Event D)) → Orderly c → Orderly (run c events)
  unfolding run
  run-Orderly c [] h = h
  run-Orderly c (event ∷ events) h = run-Orderly (step c event) events (step-Orderly c event h)

  empty-Orderly : (c : Center D) → (c.running ≡ []) × (c.finished ≡ []) → Orderly c
  empty-Orderly c (r, f) = (
    subst (Apart c.mutex_list c.mutex_map) (sym r) tt,
    subst (All Runs) (sym r) tt,
    subst (All HasEnded) (sym f) tt,
    subst (λ (es : List (Entry D)). length es ≤ task_keep_limit) (sym f) (omega arith),
  )

  registered-Orderly :
      (c : Center D) (field : Bytes) (l : List Bytes) (m : Dict Bytes (List Bytes))
      → (c.running ≡ []) × (c.finished ≡ [])
      → Orderly (register_mutex_rules c field l m).0
  unfolding register_mutex_rules
  registered-Orderly c field l m h = elim (Bool-cases (eqb_bytes field (codes "CreatedBy"))) [
    | inl q ↦
        subst (λ (r : Center D × Bool). Orderly r.0) (sym (if_true _ _ q))
          (empty-Orderly (record c { mutex_task_field = field; mutex_list = l; mutex_map = m }) h)
    | inr q ↦
        subst (λ (r : Center D × Bool). Orderly r.0) (sym (if_false _ _ q)) (empty-Orderly c h)
  ]

  -- Mutual exclusion: whatever is submitted, ends, is cancelled or reports progress after a center
  -- without tasks has been given its rules, no two tasks that run at one time exclude each other by these
  -- rules. The tasks that run have no final status and those that are listed as finished have one, and
  -- of the latter there are never more than the limit.
  pub run_from_new-Orderly :
      (epoch : ℤ) (creators : List Bytes) (field : Bytes) (l : List Bytes)
      (m : Dict Bytes (List Bytes)) (events : List (Event D))
      → Orderly (run (register_mutex_rules (new epoch creators) field l m).0 events)
  unfolding new
  run_from_new-Orderly epoch creators field l m events = run-Orderly _ events (
      registered-Orderly (new epoch creators) field l m
        (register_creators-empty creators _ (refl, refl)))
