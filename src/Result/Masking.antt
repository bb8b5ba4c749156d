-- ===== src/Result/Masking.antt =====
-- plugins/result/result.go: what the hook hides of a body.
use mathlib.Core.List.{append_assoc}
use rocksys.Base.{
  ℕ, zero, suc, ◌-◌, ◌≤◌, ◌⊎◌, length-take, leb, bytes_eq, ◌==◌, List, [], ◌∷◌, ◌++◌, length, take,
  drop, ◌≡◌, false, inl, inr, refl, ap, ◌∙◌, subst, sym, arith, In, here, there, Bool-cases,
  if_true, if_false,
}
use rocksys.Result.{Runes, stars, mask, mask_text}

-- `t` is what is shown of `s`: nothing of a text of at most seven characters, and of a longer one the
-- first three and the last four.
abbrev pub Hides : Runes → Runes → Type 0
Hides s t =
    ((length s ≤ 7) × (t ≡ stars))
    ⊎ ((x : Runes) × (z : Runes) × (y : Runes) × (s ≡ x ++ z ++ y)
        × (1 ≤ length z)
        × (length x ≡ 3)
        × (length y ≡ 4)
        × (t ≡ x ++ stars ++ y))

length-drop : (n : ℕ) (s : Runes) → length (drop n s) ≡ length s - n
length-drop zero s = ground arith
length-drop (suc n) [] = ground arith
length-drop (suc n) (c ∷ s) = omega (arith, length-drop n s)

take-drop : (n : ℕ) (s : Runes) → take n s ++ drop n s ≡ s
take-drop zero s = refl
take-drop (suc n) [] = refl
take-drop (suc n) (c ∷ s) = ap (λ r. c ∷ r) (take-drop n s)

drop_nil : (n : ℕ) → drop {A = ℕ} n [] ≡ []
drop_nil zero = refl
drop_nil (suc n) = refl

drop-three : (n : ℕ) (s : Runes) → drop n (drop 3 s) ≡ drop (suc (suc (suc n))) s
drop-three n [] = drop_nil n
drop-three n (a ∷ []) = drop_nil n ∙ sym (drop_nil (suc (suc n)))
drop-three n (a ∷ b ∷ []) = drop_nil n ∙ sym (drop_nil (suc n))
drop-three n (a ∷ b ∷ c ∷ s) = refl

last_four : (s : Runes) → 8 ≤ length s → drop (length s - 7) (drop 3 s) ≡ drop (length s - 4) s
last_four s h =
    let e : suc (suc (suc (length s - 7))) ≡ length s - 4 = omega (arith, h) in
    drop-three (length s - 7) s ∙ ap (λ n. drop n s) e

-- What stands between the first three and the last four.
abbrev middle : Runes → Runes
middle s = take (length s - 7) (drop 3 s)

parts : (s : Runes) → 8 ≤ length s → s ≡ take 3 s ++ middle s ++ drop (length s - 4) s
parts s h =
    sym (take-drop 3 s)
    ∙ ap (λ r. take 3 s ++ r)
        (sym (take-drop (length s - 7) (drop 3 s)) ∙ ap (λ r. middle s ++ r) (last_four s h))
    ∙ sym (append_assoc (take 3 s) (middle s) (drop (length s - 4) s))

mask-long : (s : Runes) → 8 ≤ length s → mask s ≡ take 3 s ++ stars ++ drop (length s - 4) s
unfolding mask
mask-long s h = if_false _ _ (too_long s h)
  where
    too_long : (s : Runes) → 8 ≤ length s → leb (length s) 7 ≡ false
    too_long s h = ground (arith, h)

mask-Hides : (s : Runes) → Hides s (mask s)
unfolding mask
mask-Hides s = elim (Bool-cases (leb (length s) 7)) [
  | inl q ↦ inl (ground (arith, q), if_true _ _ q)
  | inr q ↦
      let h : 8 ≤ length s = ground (arith, q) in
      inr (
        take 3 s,
        middle s,
        drop (length s - 4) s,
        parts s h,
        subst (λ n. 1 ≤ n) (sym (length-take (length s - 7) (drop 3 s) (enough s h)))
            (omega (arith, h)),
        length-take 3 s (omega (arith, h)),
        length-drop (length s - 4) s ∙ omega (arith, h),
        mask-long s h,
      )
]
  where
    enough : (s : Runes) → 8 ≤ length s → length s - 7 ≤ length (drop 3 s)
    enough s h = omega (arith, length-drop 3 s, h)

length_three : (x : Runes) → length x ≡ 3 → (a : ℕ) × (b : ℕ) × (c : ℕ) × (x ≡ a ∷ b ∷ c ∷ [])
length_three [] h = absurd (omega (arith, h))
length_three (a ∷ []) h = absurd (omega (arith, h))
length_three (a ∷ b ∷ []) h = absurd (omega (arith, h))
length_three (a ∷ b ∷ c ∷ []) h = (a, b, c, refl)
length_three (a ∷ b ∷ c ∷ d ∷ x) h = absurd (omega (arith, h))

length_four : (x : Runes) → length x ≡ 4 → (a : ℕ) × (y : Runes) × (x ≡ a ∷ y) × (length y ≡ 3)
length_four [] h = absurd (omega (arith, h))
length_four (a ∷ y) h = (a, y, refl, omega (arith, h))

-- A text that has been masked stays as it is.
shown-again : (x y : Runes) → length x ≡ 3 → length y ≡ 4 → mask (x ++ stars ++ y) ≡ x ++ stars ++ y
unfolding mask
shown-again x y hx hy =
    let (a, b, c, e) = length_three x hx in
    let (d, z, f, hz) = length_four y hy in
    let (u, v, w, g) = length_three z hz in
    let p = f ∙ ap (λ r. d ∷ r) g in
    subst (λ r. mask (r ++ stars ++ y) ≡ r ++ stars ++ y) (sym e)
      (subst (λ r. mask (a ∷ b ∷ c ∷ (stars ++ r)) ≡ a ∷ b ∷ c ∷ (stars ++ r)) (sym p) refl)

Hides-mask : (s t : Runes) → Hides s t → Hides s (mask t)
unfolding mask
Hides-mask s t (inl (l, e)) = inl (l, ap mask e)
Hides-mask s t (inr (x, z, y, e, lz, lx, ly, q)) =
    inr (x, z, y, e, lz, lx, ly, ap mask q ∙ shown-again x y lx ly)

mask_text-keeps : (fs : List Runes) (k s t : Runes) → Hides s t → Hides s (mask_text fs k t)
unfolding mask_text
mask_text-keeps [] k s t h = h
mask_text-keeps (f ∷ fs) k s t h = elim (Bool-cases (k == f)) [
  | inl q ↦
      subst (λ r. Hides s (mask_text fs k r)) (sym (if_true _ _ q))
        (mask_text-keeps fs k s (mask t) (Hides-mask s t h))
  | inr q ↦
      subst (λ r. Hides s (mask_text fs k r)) (sym (if_false _ _ q)) (mask_text-keeps fs k s t h)
]

pub mask_text-Hides : (fs : List Runes) (k s : Runes) → In k fs → Hides s (mask_text fs k s)
unfolding mask_text
mask_text-Hides [] k s i = elim i [ ]
mask_text-Hides (f ∷ fs) k s (here e) =
    subst (λ r. Hides s (mask_text fs k r)) (sym (if_true _ _ ((bytes_eq.same_iff k f).1 e)))
      (mask_text-keeps fs k s (mask s) (mask-Hides s))
mask_text-Hides (f ∷ fs) k s (there i) = elim (Bool-cases (k == f)) [
  | inl q ↦
      subst (λ r. Hides s (mask_text fs k r)) (sym (if_true _ _ q))
        (mask_text-keeps fs k s (mask s) (mask-Hides s))
  | inr q ↦
      subst (λ r. Hides s (mask_text fs k r)) (sym (if_false _ _ q)) (mask_text-Hides fs k s i)
]

pub mask_text-leaves : (fs : List Runes) (k s : Runes) → ¬ In k fs → mask_text fs k s ≡ s
unfolding mask_text
mask_text-leaves [] k s n = refl
mask_text-leaves (f ∷ fs) k s n = elim (Bool-cases (k == f)) [
  | inl q ↦ absurd (n (here ((bytes_eq.same_iff k f).0 q)))
  | inr q ↦ ap (mask_text fs k) (if_false _ _ q) ∙ mask_text-leaves fs k s (λ i. n (there i))
]
