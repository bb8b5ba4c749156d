-- ===== src/Workpool/Retire.antt =====
-- internal/workpool/workpool.go: how a pool comes down to its target when nothing keeps its workers busy.
use mathlib.Core.List.{[], append_assoc}
use rocksys.Base.{
  ℕ, zero, suc, ◌+◌, ◌-◌, ◌<◌, some, ◌>>=◌, List, ◌∷◌, ◌++◌, length, length-append, set, get_elem?,
  replicate, ◌≡◌, refl, arith, ap, sym, ◌∙◌,
}
use rocksys.Base.Word.{dec}
use rocksys.Workpool.{Place, Pool}
use rocksys.Workpool.Place.{checking, saw, over, claimed, gone}
use rocksys.Workpool.Steps.{Event, works, from_ticker, run, step, work_at, work, stand, step_down}

module _ {ℓ} {A : Type ℓ} where
  get_elem?-set_self :
      (xs : List A) (i : ℕ) (x y : A) → get_elem? xs i ≡ some x → get_elem? (set xs i y) i ≡ some y
  get_elem?-set_self [] i x y h = ground arith
  get_elem?-set_self (z ∷ xs) zero x y h = refl
  get_elem?-set_self (z ∷ xs) (suc i) x y h = get_elem?-set_self xs i x y h

  set-set_self : (xs : List A) (i : ℕ) (x y : A) → set (set xs i x) i y ≡ set xs i y
  set-set_self [] i x y = refl
  set-set_self (z ∷ xs) zero x y = refl
  set-set_self (z ∷ xs) (suc i) x y = ap (λ l. z ∷ l) (set-set_self xs i x y)

  get_elem?-middle : (xs ys : List A) (x : A) → get_elem? (xs ++ x ∷ ys) (length xs) ≡ some x
  get_elem?-middle [] ys x = refl
  get_elem?-middle (z ∷ xs) ys x = get_elem?-middle xs ys x

  set-middle : (xs ys : List A) (x y : A) → set (xs ++ x ∷ ys) (length xs) y ≡ xs ++ y ∷ ys
  set-middle [] ys x y = refl
  set-middle (z ∷ xs) ys x y = ap (λ l. z ∷ l) (set-middle xs ys x y)

dec_small : (w : ℕ) → 0 < w → w < 2147483648 → dec w ≡ w - 1
unfolding dec
dec_small w l b = omega (arith, l, b)

module _ {Task : Type 0} where
  -- A worker reads the number, compares it, takes itself off it and looks again.
  abbrev pub round : ℕ → List (Event Task) → List (Event Task)
  round i rest =
      works i from_ticker ∷ works i from_ticker ∷ works i from_ticker ∷ works i from_ticker ∷ rest

  abbrev pub rounds : ℕ → ℕ → List (Event Task)
  rounds i zero = []
  rounds i (suc n) = round i (rounds (suc i) n)

  one_step :
      (num_cpu i : ℕ) (p q : Pool Task) (place : Place Task) (rest : List (Event Task))
      → get_elem? p.workers i ≡ some place
      → work from_ticker i place p ≡ some q
      → run num_cpu (works i from_ticker ∷ rest) p ≡ run num_cpu rest q
  unfolding run step work_at
  one_step num_cpu i p q place rest g e =
      ap (λ o. work_at from_ticker i p o >>= run num_cpu rest) g
      ∙ ap (λ o. o >>= run num_cpu rest) e

  one_round :
      (num_cpu i : ℕ) (p : Pool Task) (rest : List (Event Task))
      → get_elem? p.workers i ≡ some checking
      → p.target_workers < p.active_workers
      → p.active_workers < 2147483648
      → run num_cpu (round i rest) p
        ≡ run num_cpu rest (record p {
          active_workers = p.active_workers - 1;
          wg = p.wg - 1;
          workers = set p.workers i gone;
        })
  unfolding work stand step_down dec
  one_round num_cpu i p rest g l b =
      one_step num_cpu i p p1 checking _ g refl
      ∙ one_step num_cpu i p1 p2 (saw a) _ g1 (ground (arith, l, b))
      ∙ one_step num_cpu i p2 p3 (over a) _ g2 (ground arith)
      ∙ one_step num_cpu i p3 p4 (claimed a) rest g3 (ground (arith, l, b))
      ∙ ap (λ q. run num_cpu rest q) ends
    where
      a : ℕ
      a = p.active_workers

      p1 : Pool Task
      p1 = record p { workers = set p.workers i (saw a) }

      p2 : Pool Task
      p2 = record p1 { workers = set p1.workers i (over a) }

      p3 : Pool Task
      p3 = record p2 { workers = set p2.workers i (claimed a); active_workers = dec a }

      p4 : Pool Task
      p4 = record p3 { workers = set p3.workers i gone; wg = p.wg - 1 }

      g1 : get_elem? p1.workers i ≡ some (saw a)
      g1 = get_elem?-set_self p.workers i checking (saw a) g

      g2 : get_elem? p2.workers i ≡ some (over a)
      g2 = get_elem?-set_self p1.workers i (saw a) (over a) g1

      g3 : get_elem? p3.workers i ≡ some (claimed a)
      g3 = get_elem?-set_self p2.workers i (over a) (claimed a) g2

      ends : p4 ≡ record p {
        active_workers = p.active_workers - 1;
        wg = p.wg - 1;
        workers = set p.workers i gone;
      }
      ends =
          ap (λ ws. record p4 { workers = ws })
            (set-set_self p2.workers i (claimed a) gone
              ∙ set-set_self p1.workers i (over a) gone
              ∙ set-set_self p.workers i (saw a) gone)
          ∙ ap (λ n. record p { active_workers = n; wg = p.wg - 1; workers = set p.workers i gone })
              (dec_small p.active_workers (omega (arith, l)) b)

  -- A pool comes down to its target: when it has `n` active workers more than the target and `n` of its
  -- workers stand at the head of their loops, some run of these workers alone makes exactly these
  -- `n` leave and ends with as many active workers as the target asks for, with every task where it was.
  -- Fewer than 2 ^ 31 workers are taken to be active.
  pub rounds-retire :
      (num_cpu n : ℕ) (p : Pool Task) (before after : List (Place Task))
      → p.workers ≡ before ++ (replicate n checking ++ after)
      → p.active_workers ≡ p.target_workers + n
      → p.active_workers < 2147483648
      → run num_cpu (rounds (length before) n) p
        ≡ some (record p {
          active_workers = p.target_workers;
          wg = p.wg - n;
          workers = before ++ (replicate n gone ++ after);
        })
  unfolding run
  rounds-retire num_cpu zero p before after w a b = ap some (
      ap (λ ws. record p { workers = ws }) w
      ∙ ap (λ k. record p { active_workers = k; workers = before ++ after }) (omega (arith, a))
      ∙ ap (λ k. record p { active_workers = p.target_workers; wg = k; workers = before ++ after })
          (omega arith))
  rounds-retire num_cpu (suc n) p before after w a b =
      one_round num_cpu (length before) p (rounds (suc (length before)) n)
        (ap (λ ws. get_elem? ws (length before)) w ∙ get_elem?-middle before _ checking)
        (omega (arith, a)) b
      ∙ ap (λ i. run num_cpu (rounds i n) q) (sym (omega (arith, length-append before (gone ∷ []))))
      ∙ rounds-retire num_cpu n q (before ++ gone ∷ []) after q_workers (omega (arith, a))
          (omega (arith, b))
      ∙ ap
          (λ k. some (record p {
            active_workers = p.target_workers;
            wg = k;
            workers = (before ++ gone ∷ []) ++ (replicate n gone ++ after);
          }))
          (omega arith)
      ∙ ap
          (λ ws.
            some (record p { active_workers = p.target_workers; wg = p.wg - suc n; workers = ws }))
          (append_assoc before (gone ∷ []) (replicate n gone ++ after))
    where
      q : Pool Task
      q = record p {
        active_workers = p.active_workers - 1;
        wg = p.wg - 1;
        workers = set p.workers (length before) gone;
      }

      q_workers : q.workers ≡ (before ++ gone ∷ []) ++ (replicate n checking ++ after)
      q_workers =
          ap (λ ws. set ws (length before) gone) w
          ∙ set-middle before (replicate n checking ++ after) checking gone
          ∙ sym (append_assoc before (gone ∷ []) (replicate n checking ++ after))
