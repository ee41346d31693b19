-- ===== src/Location/Spacing.antt =====
-- The rounds of `run` in a span between two poles: which positions are kept, and how many are sent.
use infinity_station.Base.{
  ℕ, ◌+◌, ◌≤◌, ◌≡◌, refl, ap, sym, ◌∙◌, Bool, true, false, ◌&&◌, List, [], ◌∷◌, ◌++◌, Option, none,
  some, arith, All, ltb, if◌then◌else◌, Bool-cases, inl, inr,
}
use mathlib.Core.List.{append-nil, append_assoc}
use infinity_station.Location.{
  PositionData, TriggerSaveDb, Service, apart, set_cur_dis, is_trigger, is_dist, keep_position,
  send_position, round, rounds,
}
use infinity_station.Location.Batches.{rows_of, rows_of-insert}

-- A new service.
abbrev pub start_service : Service
start_service = record {
  trigger = record { cur_dis = 0; pre_dis = 0 };
  data_base = record { insert_data = []; inserted = [] };
  send_num = 0;
  sent = [];
}

-- A position off the start of the line, more than 25 centimetres from the one kept last.
abbrev pub is_far : ℕ → PositionData → Bool
is_far last p = ltb 0 p.kilo_meter && ltb 250 (apart p.kilo_meter last)

-- What is to be kept: each position that is far from the last that was kept.
abbrev pub kept : ℕ → List (Option PositionData) → List PositionData
kept last [] = []
kept last (none ∷ ps) = kept last ps
kept last (some p ∷ ps) =
    let more = kept p.kilo_meter ps in
    let rest = kept last ps in if is_far last p then p ∷ more else rest

-- What is to be sent of the positions kept, where `n` were kept since one was sent: every ninth.
unfoldable pub every_ninth : ℕ → List PositionData → List PositionData
every_ninth n [] = []
every_ninth n (p ∷ ps) =
    let more = every_ninth (n + 1) ps in
    let rest = every_ninth 0 ps in if ltb n 8 then more else p ∷ rest

-- No round is at a new pole.
abbrev pub InSpan : Option PositionData → Type 0
InSpan none = Unit
InSpan (some p) = is_dist p.position_type ≡ false

-- Between two rounds.
record IsSettled (last : ℕ) (s : Service) : Type 0 where
  previous : s.trigger.pre_dis ≡ last
  near : ltb 250 (apart s.trigger.cur_dis last) ≡ false
  few : s.send_num ≤ 8

-- What is sent in the end, if `rest` is still to be kept.
to_send : Service → List PositionData → List PositionData
to_send s rest = s.sent ++ every_ninth s.send_num rest

-- What a round that keeps `rows` does.
record Counts (rows : List PositionData) (s s' : Service) : Type 0 where
  grown : rows_of s'.data_base ≡ rows_of s.data_base ++ rows
  ninths : (rest : List PositionData) → to_send s' rest ≡ to_send s (rows ++ rest)

trigger-far :
    (last : ℕ) (p : PositionData) (t : TriggerSaveDb)
    → t.pre_dis ≡ last
    → is_far last p ≡ true
    → is_trigger (set_cur_dis p.kilo_meter t)
      ≡ (record { cur_dis = p.kilo_meter; pre_dis = p.kilo_meter }, true)
unfolding set_cur_dis is_trigger
trigger-far last p t e far = ground arith

trigger-near :
    (last : ℕ) (p : PositionData) (t : TriggerSaveDb)
    → t.pre_dis ≡ last
    → ltb 250 (apart t.cur_dis last) ≡ false
    → is_far last p ≡ false
    → ((is_trigger (set_cur_dis p.kilo_meter t)).1 ≡ false)
      × ((is_trigger (set_cur_dis p.kilo_meter t)).0.pre_dis ≡ last)
      × (ltb 250 (apart (is_trigger (set_cur_dis p.kilo_meter t)).0.cur_dis last) ≡ false)
unfolding set_cur_dis is_trigger
trigger-near last p t e old near = ground arith

send-kept :
    (p : PositionData) (s : Service)
    → ((send_position p s).data_base ≡ s.data_base) × ((send_position p s).trigger ≡ s.trigger)
unfolding send_position
send-kept p s = ground arith

-- A round at which the pole does not change, with a position that is kept.
keep-send :
    (p : PositionData) (s : Service) (rest : List PositionData)
    → is_dist p.position_type ≡ false
    → s.send_num ≤ 8
    → (to_send (send_position p (keep_position p true s)) rest ≡ to_send s (p ∷ rest))
      × ((send_position p (keep_position p true s)).send_num ≤ 8)
unfolding keep_position send_position to_send every_ninth
keep-send p s rest span few =
    ground (arith, span, few, append_assoc s.sent (p ∷ []) (every_ninth 0 rest))

-- The end of a round that keeps its position.
keep-Counts :
    (p : PositionData) (s : Service)
    → is_dist p.position_type ≡ false
    → s.send_num ≤ 8
    → Counts (p ∷ []) s (send_position p (keep_position p true s))
      × ((send_position p (keep_position p true s)).trigger ≡ s.trigger)
      × ((send_position p (keep_position p true s)).send_num ≤ 8)
keep-Counts p s span few =
    let s' = keep_position p true s in
    let (same_base, same_trigger) = send-kept p s' in
    (
      record {
        grown = ap rows_of same_base ∙ unfold keep_position in rows_of-insert p s.data_base;
        ninths = λ rest. (keep-send p s rest span few).0;
      },
      unfold keep_position in same_trigger,
      (keep-send p s [] span few).1,
    )

skip-same :
    (p : PositionData) (s : Service)
    → is_dist p.position_type ≡ false
    → s.send_num ≤ 8
    → send_position p (keep_position p false s) ≡ s
unfolding keep_position send_position
skip-same p s span few = ground arith

round-far :
    (last : ℕ) (p : PositionData) (s : Service)
    → IsSettled last s
    → is_dist p.position_type ≡ false
    → is_far last p ≡ true
    → IsSettled p.kilo_meter (round (some p) s) × Counts (p ∷ []) s (round (some p) s)
unfolding round
round-far last p s v span far =
    let t : TriggerSaveDb = record { cur_dis = p.kilo_meter; pre_dis = p.kilo_meter } in
    let (c, same, few) = keep-Counts p (record s { trigger = t }) span v.few in
    rw (trigger-far last p s.trigger v.previous far) (
      record {
        previous = ap (λ (u : TriggerSaveDb). u.pre_dis) same;
        near =
            ap (λ (u : TriggerSaveDb). ltb 250 (apart u.cur_dis p.kilo_meter)) same ∙ ground arith;
        few = few;
      },
      record { grown = c.grown; ninths = λ rest. unfold to_send in c.ninths rest },
    )

round-near :
    (last : ℕ) (p : PositionData) (s : Service)
    → IsSettled last s
    → is_dist p.position_type ≡ false
    → is_far last p ≡ false
    → IsSettled last (round (some p) s) × Counts [] s (round (some p) s)
unfolding round
round-near last p s v span near =
    let (quiet, previous, still) = trigger-near last p s.trigger v.previous v.near near in
    let s' = record s { trigger = (is_trigger (set_cur_dis p.kilo_meter s.trigger)).0 } in
    rw (quiet, skip-same p s' span v.few)
      (
        record { previous = previous; near = still; few = v.few },
        record {
          grown = sym (append-nil (rows_of s.data_base));
          ninths = λ rest. unfold to_send in refl;
        },
      )

rounds-Counts :
    (ps : List (Option PositionData)) (last : ℕ) (s : Service)
    → All InSpan ps
    → IsSettled last s
    → Counts (kept last ps) s (rounds ps s)
unfolding rounds
rounds-Counts [] last s span v = record {
  grown = sym (append-nil (rows_of s.data_base));
  ninths = λ rest. refl;
}
rounds-Counts (none ∷ ps) last s span v = unfold round in rounds-Counts ps last s span.1 v
rounds-Counts (some p ∷ ps) last s span v = elim (Bool-cases (is_far last p)) [
  | inl far ↦
      let (v', one) = round-far last p s v span.0 far in
      let c = rounds-Counts ps p.kilo_meter (round (some p) s) span.1 v' in
      rw far (record {
        grown =
            c.grown
            ∙ rw one.grown (append_assoc (rows_of s.data_base) (p ∷ []) (kept p.kilo_meter ps));
        ninths = λ rest. c.ninths rest ∙ one.ninths (kept p.kilo_meter ps ++ rest);
      })
  | inr near ↦
      let (v', none_kept) = round-near last p s v span.0 near in
      let c = rounds-Counts ps last (round (some p) s) span.1 v' in
      rw near (record {
        grown =
            c.grown
            ∙ ap (λ l. l ++ kept last ps) (none_kept.grown ∙ append-nil (rows_of s.data_base));
        ninths = λ rest. c.ninths rest ∙ none_kept.ninths (kept last ps ++ rest);
      })
]

-- Every round leaves the service settled, those at a new pole included.
trigger-settled :
    (t : TriggerSaveDb) → let t' = (is_trigger t).0 in ltb 250 (apart t'.cur_dis t'.pre_dis) ≡ false
unfolding is_trigger
trigger-settled t = ground arith

send-few : (p : PositionData) (s : Service) → (send_position p s).send_num ≤ 8
unfolding send_position
send-few p s = ground arith

keep-trigger :
    (p : PositionData) (b : Bool) (s : Service) → (keep_position p b s).trigger ≡ s.trigger
unfolding keep_position
keep-trigger p b s = ground arith

round-IsSettled :
    (q : Option PositionData) (s : Service)
    → IsSettled s.trigger.pre_dis s
    → IsSettled (round q s).trigger.pre_dis (round q s)
unfolding round
round-IsSettled none s v = v
round-IsSettled (some p) s v =
    let (t, triggered) = is_trigger (set_cur_dis p.kilo_meter s.trigger) in
    let s' = keep_position p triggered (record s { trigger = t }) in
    let same = (send-kept p s').1 ∙ keep-trigger p triggered (record s { trigger = t }) in
    record {
      previous = refl;
      near =
          ap (λ (u : TriggerSaveDb). ltb 250 (apart u.cur_dis u.pre_dis)) same
          ∙ trigger-settled (set_cur_dis p.kilo_meter s.trigger);
      few = send-few p s';
    }

rounds-IsSettled :
    (qs : List (Option PositionData)) (s : Service)
    → IsSettled s.trigger.pre_dis s
    → IsSettled (rounds qs s).trigger.pre_dis (rounds qs s)
unfolding rounds
rounds-IsSettled [] s v = v
rounds-IsSettled (q ∷ qs) s v = rounds-IsSettled qs (round q s) (round-IsSettled q s v)

-- After any rounds of a new service, those at a new pole included, in any rounds at which the pole does
-- not change: the rows inserted are, in order, the positions more than 25 centimetres from the one by
-- which the trigger went off before them, and those of them are sent that are the ninth that was kept
-- since a position was sent.
pub rounds-kept :
    (qs ps : List (Option PositionData))
    → All InSpan ps
    → let s = rounds qs start_service in
      (rows_of (rounds ps s).data_base ≡ rows_of s.data_base ++ kept s.trigger.pre_dis ps)
      × ((rounds ps s).sent ≡ s.sent ++ every_ninth s.send_num (kept s.trigger.pre_dis ps))
unfolding to_send every_ninth
rounds-kept qs ps span =
    let s = rounds qs start_service in
    let settled =
      rounds-IsSettled qs start_service
        (record { previous = refl; near = refl; few = omega arith }) in
    let c = rounds-Counts ps s.trigger.pre_dis s span settled in
    let rows = kept s.trigger.pre_dis ps in
    (
      c.grown,
      sym (append-nil (rounds ps s).sent)
          ∙ c.ninths []
          ∙ ap (λ l. s.sent ++ every_ninth s.send_num l) (append-nil rows),
    )
