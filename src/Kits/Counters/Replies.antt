-- ===== src/Kits/Counters/Replies.antt =====
-- What is read of the replies of the relay board, and when the sum of pulses can be computed.
use infinity_station.Base.{
  ℕ, suc, ◌+◌, ◌*◌, ◌/◌, ◌%◌, ◌^◌, ◌<◌, ◌≡◌, ◌↔◌, refl, ap, sym, subst, ◌∙◌, List, [], ◌∷◌, ◌++◌,
  none, arith, length, length-append, get_or, ◌==◌, if◌then◌else◌, inl, inr, Option-cases,
}
use mathlib.Core.List.{append_assoc}
use infinity_station.Kits.Counters.{
  Pulses, counter_at, parse_channels, parse_dynamic_counter_response, sum_pulses, calc_speed_data,
}

get_or-append : (xs ys : List ℕ) (k d : ℕ) → get_or (xs ++ ys) (length xs + k) d ≡ get_or ys k d
get_or-append [] ys k d = ap (λ n. get_or ys n d) (omega arith)
get_or-append (x ∷ xs) ys k d =
    let e : suc (length xs) + k ≡ suc (length xs + k) = omega arith in
    ap (λ n. get_or (x ∷ (xs ++ ys)) n d) e ∙ get_or-append xs ys k d

-- A word in four bytes, high byte first.
unfoldable pub word_bytes : ℕ → List ℕ
word_bytes x = x / 2 ^ 24 ∷ x / 2 ^ 16 % 256 ∷ x / 2 ^ 8 % 256 ∷ x % 256 ∷ []

unfoldable pub words_bytes : List ℕ → List ℕ
words_bytes [] = []
words_bytes (x ∷ xs) = word_bytes x ++ words_bytes xs

unfoldable pub without_zeros : List ℕ → List ℕ
without_zeros [] = []
without_zeros (x ∷ xs) = if x == 0 then without_zeros xs else x ∷ without_zeros xs

counter_at-word :
    (before : List ℕ) (x : ℕ) (rest : List ℕ)
    → counter_at (before ++ (word_bytes x ++ rest)) (length before) ≡ x
unfolding counter_at word_bytes
counter_at-word before x rest =
    let reply = word_bytes x ++ rest in
    let b0 : get_or (before ++ reply) (length before) 0 ≡ x / 2 ^ 24 =
      ap (λ n. get_or (before ++ reply) n 0) (omega arith) ∙ get_or-append before reply 0 0 in
    let b1 = get_or-append before reply 1 0 in
    let b2 = get_or-append before reply 2 0 in
    let b3 = get_or-append before reply 3 0 in omega (arith, b0, b1, b2, b3)

parse_channels-words :
    (before xs : List ℕ) (channel : ℕ)
    → length before ≡ 9 + channel * 4
    → parse_channels (before ++ words_bytes xs) 4 (length xs) channel ≡ without_zeros xs
unfolding parse_channels words_bytes without_zeros
parse_channels-words before [] channel e = refl
parse_channels-words before (x ∷ xs) channel e =
    let here : counter_at (before ++ (word_bytes x ++ words_bytes xs)) (9 + channel * 4) ≡ x =
      subst (λ n. counter_at (before ++ (word_bytes x ++ words_bytes xs)) n ≡ x) e
        (counter_at-word before x (words_bytes xs)) in
    let wide : length (before ++ word_bytes x) ≡ 9 + (channel + 1) * 4 =
      unfold word_bytes in omega (arith, e, length-append before (word_bytes x)) in
    let rest = parse_channels-words (before ++ word_bytes x) xs (channel + 1) wide in
    let there =
      ap (λ r. parse_channels r 4 (length xs) (channel + 1))
        (sym (append_assoc before (word_bytes x) (words_bytes xs))) in
    ground (arith, here, there, rest)

-- A reply of nine bytes and the words of four counters gives the counters that are not 0, in order.
pub parse_reply :
    (header : List ℕ) (a b c d : ℕ)
    → length header ≡ 9
    → parse_dynamic_counter_response (header ++ words_bytes (a ∷ b ∷ c ∷ d ∷ [])) 4
      ≡ without_zeros (a ∷ b ∷ c ∷ d ∷ [])
unfolding parse_dynamic_counter_response words_bytes word_bytes
parse_reply header a b c d e =
    let size : length (header ++ words_bytes (a ∷ b ∷ c ∷ d ∷ [])) ≡ 25 =
      omega (arith, e, length-append header (words_bytes (a ∷ b ∷ c ∷ d ∷ []))) in
    ground (arith, size, parse_channels-words header (a ∷ b ∷ c ∷ d ∷ []) 0 (omega (arith, e)))

sum_pulses-none : (now last : List ℕ) → (sum_pulses now last ≡ none) ↔ (length last < length now)
unfolding sum_pulses
sum_pulses-none [] last = (λ h. absurd (cc (h)), λ h. absurd (omega (arith, h)))
sum_pulses-none (n ∷ now) [] = (λ h. omega arith, λ h. refl)
sum_pulses-none (n ∷ now) (l ∷ last) =
    let shorter = sum_pulses-none now last in
    elim (Option-cases (sum_pulses now last)) [
      | inl absent ↦ (λ h. omega (arith, shorter.0 absent), λ h. ground (arith, absent))
      | inr (sum, is) ↦
          (λ h. absurd (ground (arith, h, is)), λ h. absurd (cc (is, shorter.1 (omega (arith, h)))))
    ]

-- After any call, a call reads past the end of the former counters exactly when its reply has more
-- counters that are not 0 than the reply before.
pub calc_speed_data-past_end :
    (reply reply' : List ℕ) (p : Pulses)
    → ((calc_speed_data reply' (calc_speed_data reply p).0).1 ≡ none) ↔ (
        length (parse_dynamic_counter_response reply 4)
        < length (parse_dynamic_counter_response reply' 4))
unfolding calc_speed_data
calc_speed_data-past_end reply reply' p =
    let now = parse_dynamic_counter_response reply' 4 in
    let last = parse_dynamic_counter_response reply 4 in
    let (ends, fits) = sum_pulses-none now last in
    elim (Option-cases (sum_pulses now last)) [
      | inl absent ↦ let more = ends absent in (λ h. more, λ h. ground (arith, absent, more))
      | inr (sum, is) ↦ (λ h. absurd (ground (arith, h, is)), λ h. absurd (cc (is, fits h)))
    ]
