-- ===== src/Mvb/Parse/Frames.antt =====
-- How long a frame has to be for the parsers, and what the fields of a parsed frame are.
use infinity_station.Base.{
  ℕ, suc, ◌⊎◌, ◌+◌, ◌*◌, ◌≤◌, ◌<◌, ◌≡◌, refl, List, Option, none, some, length, get_or, All, arith,
  ◌>>=◌, inl, inr,
}
use infinity_station.Base.{get_elem?, get_elem?-eq-get_or}
use infinity_station.Mvb.Frame.{IsByte}
use infinity_station.Mvb.Parse.{
  NbStations, NbMessage, number_at, parse_station_id, parse_msg, time_at,
}
use infinity_station.Mvb.Parse.Hangde.{HdMessage, HdStations}
use infinity_station.Mvb.Parse
use native.Mathlib.Decide.{dec_lt}
use infinity_station.Mvb.Parse.Words.{number_at-short, number_at-two, number_at-four}

-- Two bytes, the higher first, and four.
abbrev pub two : ℕ → List ℕ → ℕ
two pos bytes = get_or bytes pos 0 * 256 + get_or bytes (suc pos) 0

abbrev pub four : ℕ → List ℕ → ℕ
four pos bytes =
    (two pos bytes * 256 + get_or bytes (suc (suc pos)) 0) * 256
    + get_or bytes (suc (suc (suc pos))) 0

-- A frame of 86 bytes or more has its stations parsed from the given places, and the next station
-- is read where the current one is.
pub parse_station_id-long :
    (bytes : List ℕ)
    → All IsByte bytes
    → 86 ≤ length bytes
    → parse_station_id bytes
      ≡ some (record {
        start_station_id = two 72 bytes;
        cur_station_id = two 74 bytes;
        next_station_id = two 74 bytes;
        end_station_id = two 78 bytes;
        real_speed = two 14 bytes;
        travlled_distance = four 82 bytes;
      })
unfolding parse_station_id
parse_station_id-long bytes small long = rw (
  number_at-two 72 bytes small (omega arith),
  number_at-two 74 bytes small (omega arith),
  number_at-two 78 bytes small (omega arith),
  number_at-two 14 bytes small (omega arith),
  number_at-four 82 bytes small (omega arith),
)

-- What follows never returns.
bind_none {ℓ κ} :
    {A : Type ℓ} {B : Type κ} (o : Option A) (f : A → Option B)
    → ((a : A) → f a ≡ none)
    → (o >>= f) ≡ none
bind_none none f h = refl
bind_none (some a) f h = h a

hd_stations_short :
    (bytes : List ℕ) → length bytes < 344 → Parse.Hangde.parse_station_id bytes ≡ none
unfolding Parse.Hangde.parse_station_id
hd_stations_short bytes short = bind_none (number_at 2 318 bytes) _ λ start.
    bind_none (number_at 2 320 bytes) _ λ next. bind_none (number_at 2 322 bytes) _ λ end.
      bind_none (number_at 4 332 bytes) _ λ to_next.
        bind_none (number_at 4 336 bytes) _
          λ to_current. rw (number_at-short 4 340 bytes (omega arith))

-- What returns.
abbrev HasResult {ℓ} : {A : Type ℓ} → Option A → Type ℓ
HasResult {A = A} o = (a : A) × (o ≡ some a)

bind_returns {ℓ κ} :
    {A : Type ℓ} {B : Type κ} (o : Option A) (f : A → Option B)
    → HasResult o
    → ((a : A) → HasResult (f a))
    → HasResult (o >>= f)
bind_returns o f (a, e) h = let (b, e') = h a in (b, rw e e')

module _ (bytes : List ℕ) (small : All IsByte bytes) (long : 344 ≤ length bytes) where
  two_returns : (pos : ℕ) → pos + 2 ≤ 344 → HasResult (number_at 2 pos bytes)
  two_returns pos fits = (_, number_at-two pos bytes small (omega arith))

  four_returns : (pos : ℕ) → pos + 4 ≤ 344 → HasResult (number_at 4 pos bytes)
  four_returns pos fits = (_, number_at-four pos bytes small (omega arith))

  byte_returns : (pos : ℕ) → pos < 344 → HasResult (get_elem? bytes pos)
  byte_returns pos fits = (_, get_elem?-eq-get_or bytes pos 0 (omega arith))

  train_returns : HasResult (Parse.Hangde.parse_tarin_info bytes)
  unfolding Parse.Hangde.parse_tarin_info
  train_returns = bind_returns _ _ (byte_returns 312 (omega arith)) λ byte288.
      bind_returns _ _ (byte_returns 313 (omega arith)) λ byte289.
        bind_returns _ _ (byte_returns 314 (omega arith)) λ byte290.
          bind_returns _ _ (two_returns 324 (omega arith)) λ volt2.
            bind_returns _ _ (two_returns 326 (omega arith)) λ volt3.
              bind_returns _ _ (two_returns 328 (omega arith))
                λ current2. bind_returns _ _ (two_returns 330 (omega arith)) λ current3. (_, refl)

  time_returns : HasResult (time_at 26 bytes)
  unfolding time_at
  time_returns = bind_returns _ _ (byte_returns 26 (omega arith)) λ year.
      bind_returns _ _ (byte_returns 27 (omega arith)) λ month.
        bind_returns _ _ (byte_returns 28 (omega arith)) λ day.
          bind_returns _ _ (byte_returns 29 (omega arith)) λ hour.
            bind_returns _ _ (byte_returns 30 (omega arith))
              λ minute. bind_returns _ _ (byte_returns 31 (omega arith)) λ second. (_, refl)

  stations_return : HasResult (Parse.Hangde.parse_station_id bytes)
  unfolding Parse.Hangde.parse_station_id
  stations_return = bind_returns _ _ (two_returns 318 (omega arith)) λ start.
      bind_returns _ _ (two_returns 320 (omega arith)) λ next.
        bind_returns _ _ (two_returns 322 (omega arith)) λ end.
          bind_returns _ _ (four_returns 332 (omega arith)) λ to_next.
            bind_returns _ _ (four_returns 336 (omega arith)) λ to_current.
              bind_returns _ _ (four_returns 340 (omega arith))
                λ run. bind_returns _ _ (two_returns 316 (omega arith)) λ speed. (_, refl)

  pms_returns : HasResult (Parse.Hangde.parse_pms_data bytes)
  unfolding Parse.Hangde.parse_pms_data
  pms_returns =
      bind_returns _ _ (two_returns 24 (omega arith))
        λ alive. bind_returns _ _ (byte_returns 32 (omega arith)) λ trainset. (_, refl)

  msg_returns : HasResult (Parse.Hangde.parse_msg bytes)
  unfolding Parse.Hangde.parse_msg
  msg_returns = bind_returns _ _ train_returns λ train. bind_returns _ _ time_returns λ time.
      bind_returns _ _ stations_return
        λ stations. bind_returns _ _ pms_returns λ heartbeat. (_, refl)

-- A frame of bytes of the Hangde line with fewer than 344 bytes is rejected by an exception, and
-- a longer one is parsed to a message.
pub parse_msg_cases :
    (bytes : List ℕ)
    → All IsByte bytes
    → ((length bytes < 344) × (Parse.Hangde.parse_msg bytes ≡ none))
      ⊎ ((344 ≤ length bytes) × ((m : HdMessage) × (Parse.Hangde.parse_msg bytes ≡ some m)))
unfolding Parse.Hangde.parse_msg
parse_msg_cases bytes small = elim (dec_lt (length bytes) 344) [
  | yes short ↦ inl (
    short,
    bind_none (Parse.Hangde.parse_tarin_info bytes) _
        λ train. bind_none (time_at 26 bytes) _ λ time. rw (hd_stations_short bytes short),
  )
  | no long ↦ inr (omega arith, msg_returns bytes small (omega arith))
]
