-- ===== src/Taskcenter/Runs/Lists.antt =====
-- internal/taskcenter/taskcenter.go: lists of tasks that do not exclude each other, under the changes that
-- the calls make to them.
use rocksys.Base.{
  ℕ, bytes_eq, false, eqb, List, [], ◌∷◌, ◌++◌, length, Bytes, none, ◌≡◌, refl, sym, subst, arith,
  Bool-cases, inl, inr, if_true, if_false,
}
use rocksys.Base.Lists.{All, All-append}
use rocksys.Base.Dict.{Dict}
use rocksys.Taskcenter.{Task, Entry}
use rocksys.Taskcenter.Rules.{excludes, conflict_in}
use rocksys.Taskcenter.Finish.{remove_ref, update_ref}
use rocksys.Taskcenter.Runs.{Apart}

module _ {D : Type 0} where
  pub All-remove :
      (P : Entry D → Type 0) (ref : ℕ) (es : List (Entry D)) → All P es → All P (remove_ref ref es)
  unfolding remove_ref
  All-remove P ref [] h = tt
  All-remove P ref (e ∷ es) h = elim (Bool-cases (eqb e.ref ref)) [
    | inl q ↦ subst (All P) (sym (if_true _ _ q)) h.1
    | inr q ↦ subst (All P) (sym (if_false _ _ q)) (h.0, All-remove P ref es h.1)
  ]

  pub Apart-remove :
      (l : List Bytes) (m : Dict Bytes (List Bytes)) (ref : ℕ) (es : List (Entry D))
      → Apart l m es
      → Apart l m (remove_ref ref es)
  unfolding remove_ref
  Apart-remove l m ref [] h = tt
  Apart-remove l m ref (e ∷ es) h = elim (Bool-cases (eqb e.ref ref)) [
    | inl q ↦ subst (Apart l m) (sym (if_true _ _ q)) h.1
    | inr q ↦
        subst (Apart l m) (sym (if_false _ _ q))
          (All-remove _ ref es h.0, Apart-remove l m ref es h.1)
  ]

  pub Apart-last :
      (l : List Bytes) (m : Dict Bytes (List Bytes)) (es : List (Entry D)) (f : Entry D)
      → Apart l m es
      → All (λ e. excludes l m e.task.created_by f.task.created_by ≡ false) es
      → Apart l m (es ++ f ∷ [])
  Apart-last l m [] f h n = (tt, tt)
  Apart-last l m (e ∷ es) f h n =
      (All-append _ es (f ∷ []) h.0 (n.0, tt), Apart-last l m es f h.1 n.1)

  pub conflict_in-none :
      (l : List Bytes) (m : Dict Bytes (List Bytes)) (es : List (Entry D)) (label : Bytes)
      → conflict_in l m es label ≡ none
      → All (λ e. excludes l m e.task.created_by label ≡ false) es
  unfolding conflict_in
  conflict_in-none l m [] label h = tt
  conflict_in-none l m (e ∷ es) label h =
      (ground (arith, h), conflict_in-none l m es label (ground (arith, h)))

  module _ (f : Entry D → Entry D) where
    pub All-update :
        (P : Entry D → Type 0) (ref : ℕ) (es : List (Entry D))
        → ((e : Entry D) → P e → P (f e))
        → All P es
        → All P (update_ref ref f es)
    unfolding update_ref
    All-update P ref [] k h = tt
    All-update P ref (e ∷ es) k h = elim (Bool-cases (eqb e.ref ref)) [
      | inl q ↦ subst (All P) (sym (if_true _ _ q)) (k e h.0, h.1)
      | inr q ↦ subst (All P) (sym (if_false _ _ q)) (h.0, All-update P ref es k h.1)
    ]

    pub Apart-update :
        (l : List Bytes) (m : Dict Bytes (List Bytes)) (ref : ℕ) (es : List (Entry D))
        → ((e : Entry D) → (f e).task ≡ e.task)
        → Apart l m es
        → Apart l m (update_ref ref f es)
    unfolding update_ref
    Apart-update l m ref [] k h = tt
    Apart-update l m ref (e ∷ es) k h = elim (Bool-cases (eqb e.ref ref)) [
      | inl q ↦ subst (Apart l m) (sym (if_true _ _ q)) (
        subst (λ (t : Task D). All (λ g. excludes l m t.created_by g.task.created_by ≡ false) es)
            (sym (k e)) h.0,
        h.1,
      )
      | inr q ↦ subst (Apart l m) (sym (if_false _ _ q)) (
        All-update _ ref es
            (λ g n.
              subst (λ (t : Task D). excludes l m e.task.created_by t.created_by ≡ false)
                (sym (k g)) n)
            h.0,
        Apart-update l m ref es k h.1,
      )
    ]

    pub length-update : (ref : ℕ) (es : List (Entry D)) → length (update_ref ref f es) ≡ length es
    unfolding update_ref
    length-update ref [] = refl
    length-update ref (e ∷ es) = ground (arith, length-update ref es)
