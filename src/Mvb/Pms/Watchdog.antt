-- ===== src/Mvb/Pms/Watchdog.antt =====
-- The counters of the modules: `setModulstatusInfo` is called with 1 for a module that does not report.
use infinity_station.Base.{ℕ, zero, suc, ◌%◌, ◌^◌, not, ◌==◌, ◌≤◌, List, [], ◌∷◌, ◌++◌}
use infinity_station.Base.{◌≡◌, refl, sym, ap, ◌∙◌, arith, All, inl, inr, Option-cases}
use infinity_station.Base.{Option, none, some, ◌>>=◌, if◌then◌else◌, Bool-cases}
use mathlib.Core.List.{append-nil, append_assoc}
use infinity_station.Base.Int.{ℤ, pos, negsuc}
use infinity_station.Mvb.Generator.{DataGenerator}
use infinity_station.Mvb.Pms.{
  PmsGenerator, decrement, is_negative, set_modulstatus_info, decrease_loop,
  decrease_modules_alive_time, find,
}

-- The modules whose time is over, and the counters one lower.
unfoldable pub overdue : List (ℕ × ℤ) → List ℕ
unfolding is_negative
overdue [] = []
overdue ((m, left) ∷ es) = let rest = overdue es in if is_negative left then m ∷ rest else rest

unfoldable pub count_down : List (ℕ × ℤ) → List (ℕ × ℤ)
unfolding decrement
count_down [] = []
count_down ((m, left) ∷ es) = (m, decrement left) ∷ count_down es

module _ {G : Type 0} (d : DataGenerator G) where
  -- One call of `setModulstatusInfo` after the other.
  unfoldable pub report : List ℕ → PmsGenerator G → Option (PmsGenerator G)
  unfolding set_modulstatus_info
  report [] p = some p
  report (m ∷ ms) p = set_modulstatus_info d m 1 p >>= report ms

  decrease_loop_lem :
      (seen es : List (ℕ × ℤ)) (p : PmsGenerator G)
      → decrease_loop d seen es p ≡ (
          report (overdue es) p >>= λ p'. some (record p' { modul_status = seen ++ count_down es }))
  unfolding decrease_loop overdue count_down report
  decrease_loop_lem seen [] p =
      ap (λ es. some (record p { modul_status = es })) (sym (append-nil seen))
  decrease_loop_lem seen ((m, left) ∷ es) p = elim (Bool-cases (is_negative left)) [
    | inl over ↦ elim (Option-cases (set_modulstatus_info d m 1 p)) [
      | inl fails ↦ rw over (rw fails)
      | inr (p', runs) ↦ rw over (rw runs (decrease_loop_lem _ es p' ∙ all_seen p'))
    ]
    | inr in_time ↦ rw in_time (decrease_loop_lem _ es p ∙ all_seen p)
  ]
    where
      all_seen :
          (q : PmsGenerator G)
          → (report (overdue es) q >>= λ p'.
              some (record p' { modul_status = seen ++ (m, decrement left) ∷ [] ++ count_down es }))
            ≡ (report (overdue es) q >>= λ p'.
                some (record p' { modul_status = seen ++ count_down ((m, left) ∷ es) }))
      all_seen q =
          ap (λ xs. report (overdue es) q >>= λ p'. some (record p' { modul_status = xs }))
            (append_assoc seen ((m, decrement left) ∷ []) (count_down es))

  -- One tick calls `setModulstatusInfo` with 1 for exactly the modules whose counter is below zero,
  -- in the order of the table, and takes one from every counter; it throws if one of these calls does.
  pub decrease_cases :
      (p : PmsGenerator G)
      → decrease_modules_alive_time d p ≡ (
          report (overdue p.modul_status) p >>= λ p'.
          some (record p' { modul_status = count_down p.modul_status }))
  unfolding decrease_modules_alive_time
  decrease_cases p = decrease_loop_lem [] p.modul_status p

  unfoldable pub ticks : ℕ → PmsGenerator G → Option (PmsGenerator G)
  unfolding decrease_modules_alive_time
  ticks zero p = some p
  ticks (suc k) p = decrease_modules_alive_time d p >>= ticks k

abbrev pub AtLeast : ℕ → ℤ → Type 0
AtLeast n (pos k) = n ≤ k
AtLeast n (negsuc k) = ⊥

unfoldable pub lower : ℕ → List (ℕ × ℤ) → List (ℕ × ℤ)
unfolding count_down
lower zero es = es
lower (suc k) es = lower k (count_down es)

none_overdue : (n : ℕ) (es : List (ℕ × ℤ)) → All (λ e. AtLeast n e.1) es → overdue es ≡ []
unfolding overdue is_negative
none_overdue n [] h = refl
none_overdue n ((m, pos k) ∷ es) h = none_overdue n es h.1
none_overdue n ((m, negsuc k) ∷ es) h = absurd h.0

counted_AtLeast :
    (n : ℕ) (es : List (ℕ × ℤ))
    → All (λ e. AtLeast (suc n) e.1) es
    → All (λ e. AtLeast n e.1) (count_down es)
unfolding count_down decrement
counted_AtLeast n [] h = h
counted_AtLeast n ((m, pos zero) ∷ es) h = absurd (omega (arith, h.0))
counted_AtLeast n ((m, pos (suc k)) ∷ es) h = (omega (arith, h.0), counted_AtLeast n es h.1)
counted_AtLeast n ((m, negsuc k) ∷ es) h = absurd h.0

module _ {G : Type 0} (d : DataGenerator G) where
  -- If every counter is at least `n`, up to n + 1 ticks return and change nothing but the
  -- counters.
  pub ticks_quiet :
      (n k : ℕ) (p : PmsGenerator G)
      → All (λ e. AtLeast n e.1) p.modul_status
      → k ≤ suc n
      → ticks d k p ≡ some (record p { modul_status = lower k p.modul_status })
  unfolding ticks lower report
  ticks_quiet n zero p h le = refl
  ticks_quiet zero (suc k) p h le =
      let last : k ≡ 0 = omega arith in
      rw (decrease_cases d p, none_overdue 0 p.modul_status h, last)
  ticks_quiet (suc n) (suc k) p h le =
      rw (decrease_cases d p, none_overdue (suc n) p.modul_status h)
        (ticks_quiet n k (record p { modul_status = count_down p.modul_status })
          (counted_AtLeast n p.modul_status h) (omega arith))

  -- `setModulstatusInfo` does not look at the counters.
  forget :
      (m v : ℕ) (xs ys : List (ℕ × ℤ)) (p : PmsGenerator G)
      → (set_modulstatus_info d m v (record p { modul_status = xs }) >>= λ p'.
          some (record p' { modul_status = ys }))
        ≡ (set_modulstatus_info d m v p >>= λ p'. some (record p' { modul_status = ys }))
  unfolding set_modulstatus_info
  forget m v xs ys p = elim (Option-cases (find (m % 2 ^ 16) p.status_setters)) [
    | inl unknown ↦ rw (set_modulstatus_info, unknown)
    | inr (f, known) ↦ elim (Option-cases p.generator) [
      | inl null ↦ rw (set_modulstatus_info, known, null)
      | inr (g, there) ↦ elim (Option-cases (d.set_fault f (not (v == 0)) g)) [
        | inl throws ↦ rw (set_modulstatus_info, known, there) (rw throws)
        | inr (g', returns) ↦ rw (set_modulstatus_info, known, there) (rw returns)
      ]
    ]
  ]

  collapse :
      (r : Option (PmsGenerator G)) (f : PmsGenerator G → PmsGenerator G)
      → (((r >>= some) >>= λ p'. some (f p')) >>= some) ≡ (r >>= λ p'. some (f p'))
  collapse none f = refl
  collapse (some p) f = refl

  -- For a table of one module with `n` ticks left, n + 2 ticks without an update amount to one
  -- call of `setModulstatusInfo` with the value 1 for it, and leave its counter at -2.
  pub ticks_fires :
      (m n : ℕ) (p : PmsGenerator G)
      → ticks d (suc (suc n)) (record p { modul_status = (m, pos n) ∷ [] }) ≡ (
          set_modulstatus_info d m 1 p >>= λ p'.
          some (record p' { modul_status = (m, negsuc 1) ∷ [] }))
  unfolding ticks report overdue count_down decrement is_negative
  ticks_fires m zero p =
      ap (λ r. r >>= ticks d 1) (decrease_cases d (record p { modul_status = (m, pos 0) ∷ [] }))
      ∙ ap (λ r. r >>= some) (decrease_cases d (record p { modul_status = (m, negsuc 0) ∷ [] }))
      ∙ collapse _ (λ p'. record p' { modul_status = (m, negsuc 1) ∷ [] })
      ∙ forget m 1 ((m, negsuc 0) ∷ []) ((m, negsuc 1) ∷ []) p
  ticks_fires m (suc n) p =
      ap (λ r. r >>= ticks d (suc (suc n)))
        (decrease_cases d (record p { modul_status = (m, pos (suc n)) ∷ [] }))
      ∙ ticks_fires m n p
