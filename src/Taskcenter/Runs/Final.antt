-- ===== src/Taskcenter/Runs/Final.antt =====
-- internal/taskcenter/taskcenter.go: a task that has ended stays as it is.
use mathlib.Core.List.{append-nil, append_assoc}
use rocksys.Base.{
  ℕ, suc, ◌-◌, ◌≤◌, ◌+◌, ℤ, bytes_eq, ltb, eqb, List, [], ◌∷◌, ◌++◌, length, drop, Bytes, Option,
  none, some, ◌≡◌, refl, sym, ap, subst, ◌∙◌, arith, Bool-cases, inl, inr, if_true, if_false,
  length-append, length-drop, zero,
}
use rocksys.Base.Lists.{All}
use rocksys.Base.Dict.{get}
use rocksys.Taskcenter.{Progress, Entry, Center, Spec, task_keep_limit}
use rocksys.Taskcenter.Rules.{conflict_with, submit, admit, Submitted, flag}
use rocksys.Taskcenter.Finish.{
  finish, finish_found, keep, find_ref, update_ref, with_progress, set_progress, cancel, find_by_id,
  cancel_found,
}
use rocksys.Taskcenter.Runs.{
  Event, submits, ends, cancels, progresses, step, run, HasEnded, Orderly,
}
use rocksys.Taskcenter.Runs.Exclusion.{step-Orderly}

module _ {D : Type 0} where
  -- The later list is the earlier one with more at its end, less some of the oldest.
  abbrev pub Keeps : List (Entry D) → List (Entry D) → Type 0
  Keeps xs ys =
      (k : ℕ) × (added : List (Entry D)) × (k ≤ length (xs ++ added)) × (ys ≡ drop k (xs ++ added))

  drop-more : (k : ℕ) (xs ys : List (Entry D)) → k ≤ length xs → drop k xs ++ ys ≡ drop k (xs ++ ys)
  drop-more zero xs ys h = refl
  drop-more (suc k) [] ys h = absurd (omega (arith, h))
  drop-more (suc k) (x ∷ xs) ys h = drop-more k xs ys (omega (arith, h))

  drop-nil : (k : ℕ) → drop {A = Entry D} k [] ≡ []
  drop-nil zero = refl
  drop-nil (suc k) = refl

  drop-drop : (j k : ℕ) (xs : List (Entry D)) → drop j (drop k xs) ≡ drop (k + j) xs
  drop-drop j zero xs = ap (λ n. drop n xs) (omega arith)
  drop-drop zero (suc k) [] = sym (drop-nil (suc k + 0))
  drop-drop (suc j) (suc k) [] = sym (drop-nil (suc k + suc j))
  drop-drop j (suc k) (x ∷ xs) =
      let e : suc (k + j) ≡ suc k + j = omega arith in
      drop-drop j k xs ∙ ap (λ n. drop n (x ∷ xs)) e

  same-Keeps : (xs : List (Entry D)) → Keeps xs xs
  same-Keeps xs = (0, [], omega arith, sym (append-nil xs))

  Keeps-trans : (xs ys zs : List (Entry D)) → Keeps xs ys → Keeps ys zs → Keeps xs zs
  Keeps-trans xs ys zs (k, a, h, e) (j, b, g, f) = (
    k + j,
    a ++ b,
    within,
    f
        ∙ ap (λ l. drop j (l ++ b)) e
        ∙ ap (drop j) (drop-more k (xs ++ a) b h ∙ ap (drop k) (append_assoc xs a b))
        ∙ drop-drop j k (xs ++ (a ++ b)),
  )
    where
      within : k + j ≤ length (xs ++ (a ++ b))
      within = omega (
        arith,
        h,
        g,
        ap length e,
        length-append ys b,
        length-drop k (xs ++ a) h,
        length-append xs a,
        length-append a b,
        length-append xs (a ++ b),
      )

  keep-Keeps : (xs added : List (Entry D)) → Keeps xs (keep (xs ++ added))
  unfolding keep
  keep-Keeps xs added = elim (Bool-cases (ltb task_keep_limit (length (xs ++ added)))) [
    | inl q ↦ (length (xs ++ added) - task_keep_limit, added, omega arith, if_true _ _ q)
    | inr q ↦ (0, added, omega arith, if_false _ _ q)
  ]

  ended-with_progress : (p : Progress D) (e : Entry D) → HasEnded e → with_progress p e ≡ e
  unfolding with_progress
  ended-with_progress p e h = if_true _ _ h

  ended-update :
      (p : Progress D) (ref : ℕ) (es : List (Entry D))
      → All HasEnded es
      → update_ref ref (with_progress p) es ≡ es
  unfolding update_ref
  ended-update p ref [] h = refl
  ended-update p ref (e ∷ es) h = elim (Bool-cases (eqb e.ref ref)) [
    | inl q ↦ if_true _ _ q ∙ ap (λ f. f ∷ es) (ended-with_progress p e h.0)
    | inr q ↦ if_false _ _ q ∙ ap (λ l. e ∷ l) (ended-update p ref es h.1)
  ]

  finish_found-Keeps :
      (c : Center D) (ref : ℕ) (at : ℤ) (err : Option Bytes) (o : Option (Entry D))
      → Keeps c.finished (finish_found c ref at err o).finished
  unfolding finish_found
  finish_found-Keeps c ref at err none = same-Keeps c.finished
  finish_found-Keeps c ref at err (some e) = keep-Keeps c.finished _

  cancel_found-finished :
      (c : Center D) (now : ℤ) (o : Option (Entry D))
      → (cancel_found c now o).0.finished ≡ c.finished
  unfolding cancel_found
  cancel_found-finished c now none = refl
  cancel_found-finished c now (some e) = ground arith

  admit-finished :
      (c : Center D) (spec : Spec) (now : ℤ) (o : Option (Entry D))
      → (admit c spec now o).0.finished ≡ c.finished
  unfolding admit
  admit-finished c spec now none = refl
  admit-finished c spec now (some e) = refl

  submit-finished :
      (c : Center D) (spec : Spec) (now : ℤ) → (submit c spec now).0.finished ≡ c.finished
  unfolding submit
  submit-finished c spec now = elim (Bool-cases (flag (get c.allow_creators spec.created_by))) [
    | inl q ↦
        ap (λ (r : Center D × Submitted). r.0.finished) (if_true _ _ q)
        ∙ admit-finished c spec now (conflict_with c spec.created_by)
    | inr q ↦ ap (λ (r : Center D × Submitted). r.0.finished) (if_false _ _ q)
  ]

  step-Keeps :
      (c : Center D) (event : Event D) → Orderly c → Keeps c.finished (step c event).finished
  unfolding step finish cancel set_progress
  step-Keeps c (submits spec now) h =
      subst (Keeps c.finished) (sym (submit-finished c spec now)) (same-Keeps c.finished)
  step-Keeps c (ends ref at end) h = finish_found-Keeps c ref at _ (find_ref ref c.running)
  step-Keeps c (cancels id now) h =
      subst (Keeps c.finished) (sym (cancel_found-finished c now (find_by_id c id)))
        (same-Keeps c.finished)
  step-Keeps c (progresses ref none) h = same-Keeps c.finished
  step-Keeps c (progresses ref (some p)) h =
      subst (Keeps c.finished) (sym (ended-update p ref c.finished h.2)) (same-Keeps c.finished)

  -- A final status is final: of an orderly center, whatever is called and whatever ends, the list of
  -- finished tasks only grows at its end and loses the oldest ones; no task in it changes, neither its
  -- status nor its result nor its progress.
  pub run-Keeps :
      (c : Center D) (events : List (Event D))
      → Orderly c
      → Keeps c.finished (run c events).finished
  unfolding run
  run-Keeps c [] h = same-Keeps c.finished
  run-Keeps c (event ∷ events) h =
      Keeps-trans c.finished (step c event).finished (run (step c event) events).finished
        (step-Keeps c event h) (run-Keeps (step c event) events (step-Orderly c event h))
