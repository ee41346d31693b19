-- ===== src/Kits/SaveVideo/Bounds.antt =====
-- The size of the cache, and a frame of one recording that comes into the next.
use infinity_station.Base.{
  ℕ, zero, suc, ◌+◌, ◌≤◌, ◌≡◌, refl, subst, true, false, [], ◌∷◌, ◌++◌, length, arith,
}
use infinity_station.Kits.SaveVideo.{
  Memory, CameraPc, RecorderPc, CameraMove, RecorderMove, System, Step, film, record_video, Reach,
  here, later, ignore, arrive, arrive_later, cache, wanted, unwanted, post, busy, begin, mark_pre,
  mark_before, copy, fail, encode_pre, stop_waiting, encode_post, throw, clear, finish,
}
use infinity_station.Kits.SaveVideo.Spans.{trim_few, length-trim}

Step-le :
    {max : ℕ} {s t : System}
    → Step max s t
    → length s.mem.pre_record ≤ max
    → length t.mem.pre_record ≤ max
Step-le {max} (film mv) h = film_le mv h
  where
    film_le :
        {max : ℕ} {m m' : Memory} {c c' : CameraPc}
        → CameraMove max m c m' c'
        → length m.pre_record ≤ max
        → length m'.pre_record ≤ max
    film_le (ignore _) h = h
    film_le (arrive _ _) h = h
    film_le (arrive_later _ _) h = h
    film_le {max} {m} (cache _) h = length-trim max (m.pre_record ++ m.next ∷ [])
    film_le (wanted _) h = h
    film_le (unwanted _) h = h
    film_le post h = h
Step-le {max} (record_video mv) h = subst (λ k. length k ≤ max) (record_same mv) h
  where
    record_same :
        {m m' : Memory} {r r' : RecorderPc} → RecorderMove m r m' r' → m.pre_record ≡ m'.pre_record
    record_same (busy _) = refl
    record_same (begin _) = refl
    record_same mark_pre = refl
    record_same mark_before = refl
    record_same copy = refl
    record_same fail = refl
    record_same encode_pre = refl
    record_same stop_waiting = refl
    record_same encode_post = refl
    record_same throw = refl
    record_same clear = refl
    record_same finish = refl

-- In every state that is reached the cache holds at most `max` frames.
pub pre_record-le : {max : ℕ} {s : System} → Reach max s → length s.mem.pre_record ≤ max
pre_record-le here = omega arith
pre_record-le (later r st) = Step-le st (pre_record-le r)

module _ {max : ℕ} where
  filmed :
      {m m' : Memory} {c c' : CameraPc} {r : RecorderPc}
      → Reach max (record { mem = m; camera = c; recorder = r })
      → CameraMove max m c m' c'
      → Reach max (record { mem = m'; camera = c'; recorder = r })
  filmed r mv = later r (film mv)

  recorded :
      {m m' : Memory} {c : CameraPc} {r r' : RecorderPc}
      → Reach max (record { mem = m; camera = c; recorder = r })
      → RecorderMove m r m' r'
      → Reach max (record { mem = m'; camera = c; recorder = r' })
  recorded r mv = later r (record_video mv)

  copied :
      {m : Memory} {c : CameraPc}
      → Reach max (record { mem = m; camera = c; recorder = RecorderPc.spawned })
      → Reach max (record {
        mem = record m {
          is_pre_recording = true;
          is_before_recording = true;
          cache_locked = false;
        };
        camera = c;
        recorder = RecorderPc.opening m.pre_record;
      })
  copied r = recorded (recorded (recorded r mark_pre) mark_before) copy

  -- Where the cache may hold two frames, a second recording can be reached whose file has frame 0,
  -- frame 1, and frame 0 again: the camera thread had it at hand when the first recording ended.
  pub stale_frame :
      2 ≤ max → (s : System) × Reach max s × (s.mem.starts ≡ 2) × (s.mem.encoded ≡ 0 ∷ 1 ∷ 0 ∷ [])
  stale_frame room =
      let r1 = recorded (copied (recorded here (begin refl))) encode_pre in
      let r2 = filmed (filmed (filmed r1 (arrive refl refl)) (cache refl)) (wanted refl) in
      let r3 = recorded (recorded (recorded (recorded r2 stop_waiting) encode_post) clear) finish in
      let r4 = filmed r3 post in
      let r5 = filmed (filmed (filmed r4 (arrive refl refl)) (cache refl)) (unwanted refl) in
      let r6 = recorded (copied (recorded r5 (begin refl))) encode_pre in
      let r7 = recorded (recorded r6 stop_waiting) encode_post in
      (
        _,
        r7,
        refl,
        rw (trim_few max (0 ∷ []) (omega arith), trim_few max (0 ∷ 1 ∷ []) (omega arith)) refl,
      )

  -- Frames that come between the two stores.
  dropped :
      (j n : ℕ) {m : Memory}
      → m.is_record_video ≡ true
      → m.is_pre_recording ≡ true
      → m.is_before_recording ≡ false
      → m.next ≡ n
      → Reach max (record { mem = m; camera = CameraPc.idle; recorder = RecorderPc.marking })
      → Reach max (record {
        mem = record m { next = j + n };
        camera = CameraPc.idle;
        recorder = RecorderPc.marking;
      })
  dropped zero n {m} on pre w e r =
      subst
        (λ k. Reach max (record {
          mem = record m { next = k };
          camera = CameraPc.idle;
          recorder = RecorderPc.marking;
        }))
        (omega (arith, e)) r
  dropped (suc j) n {m} on pre w e r =
      subst
        (λ k. Reach max (record {
          mem = record m { next = k };
          camera = CameraPc.idle;
          recorder = RecorderPc.marking;
        }))
        (omega arith)
        (dropped j (n + 1) on pre w (omega (arith, e))
          (filmed (filmed r (arrive_later on pre)) (unwanted w)))

  -- Where the cache may hold a frame, any number `j` of frames can be missing: a first recording can be
  -- reached whose file has frame 0 and then frame `j + 1`.
  pub lost_frames :
      (j : ℕ)
      → 1 ≤ max
      → (s : System) × Reach max s × (s.mem.starts ≡ 1) × (s.mem.encoded ≡ 0 ∷ (j + 1) ∷ [])
  lost_frames j room =
      let r1 = filmed (filmed (filmed here (arrive refl refl)) (cache refl)) (unwanted refl) in
      let r2 = dropped j 1 refl refl refl refl (recorded (recorded r1 (begin refl)) mark_pre) in
      let r3 = recorded (recorded r2 mark_before) copy in
      let r4 = filmed (filmed (filmed r3 (arrive_later refl refl)) (wanted refl)) post in
      let r5 = recorded (recorded (recorded r4 encode_pre) stop_waiting) encode_post in
      (_, r5, refl, rw (trim_few max (0 ∷ []) room) refl)
