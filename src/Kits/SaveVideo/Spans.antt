-- ===== src/Kits/SaveVideo/Spans.antt =====
-- Runs of consecutive frames, and the trimming of the cache.
use infinity_station.Base.{
  ℕ, zero, suc, ◌+◌, ◌≤◌, ◌≡◌, refl, ap, sym, ◌∙◌, List, [], ◌∷◌, ◌++◌, length, ltb, Bool-cases,
  inl, inr, arith, le→ltb,
}
use infinity_station.Kits.SaveVideo.{trim}

-- `n` frames from `a` on.
abbrev pub span : ℕ → ℕ → List ℕ
span a zero = []
span a (suc n) = a ∷ span (suc a) n

pub span-snoc : (a n : ℕ) → span a n ++ (a + n) ∷ [] ≡ span a (suc n)
span-snoc a zero = ap (λ k. k ∷ []) (omega arith)
span-snoc a (suc n) =
    ap (◌∷◌ a) (ap (λ k. span (suc a) n ++ k ∷ []) (omega arith) ∙ span-snoc (suc a) n)

-- All the frames up to `e` but perhaps the oldest.
abbrev pub IsSpanTo : List ℕ → ℕ → Type 0
IsSpanTo xs e = (a : ℕ) × (n : ℕ) × (xs ≡ span a n) × (a + n ≡ e)

trim-IsSpanTo : (max a n : ℕ) → IsSpanTo (trim max (span a n)) (a + n)
unfolding trim
trim-IsSpanTo max a zero = (a, 0, refl, refl)
trim-IsSpanTo max a (suc n) = elim (Bool-cases (ltb max (length (span a (suc n))))) [
  | inl much ↦
      let (b, k, e, sum) = trim-IsSpanTo max (suc a) n in (b, k, rw much e, omega (arith, sum))
  | inr few ↦ (a, suc n, rw few refl, refl)
]

pub IsSpanTo-cache :
    (max : ℕ) (xs : List ℕ) (e : ℕ) → IsSpanTo xs e → IsSpanTo (trim max (xs ++ e ∷ [])) (suc e)
IsSpanTo-cache max xs e (a, n, is, sum) =
    let (b, k, is', sum') = trim-IsSpanTo max a (suc n) in
    (
      b,
      k,
      ap (trim max)
            (ap (λ l. l ++ e ∷ []) is ∙ ap (λ x. span a n ++ x ∷ []) (sym sum) ∙ span-snoc a n)
          ∙ is',
      omega (arith, sum', sum),
    )

pub trim_few : (max : ℕ) (xs : List ℕ) → length xs ≤ max → trim max xs ≡ xs
unfolding trim
trim_few max [] h = refl
trim_few max (x ∷ xs) h = rw (le→ltb max (length (x ∷ xs)) h) refl

pub length-trim : (max : ℕ) (xs : List ℕ) → length (trim max xs) ≤ max
unfolding trim
length-trim max [] = omega arith
length-trim max (x ∷ xs) = elim (Bool-cases (ltb max (length (x ∷ xs)))) [
  | inl much ↦ rw much (length-trim max xs)
  | inr few ↦ rw few (ground (arith, few))
]
