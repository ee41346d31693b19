-- ===== src/Witnesses/Videos.antt =====
-- Recordings for the theorems of Kits/SaveVideo.
use infinity_station.Base.{ℕ, ◌+◌, ◌≤◌, ◌≡◌, refl, [], ◌∷◌, ◌++◌, arith}
use infinity_station.Kits.SaveVideo.{
  System, Reach, here, later, film, record_video, arrive, cache, wanted, post, begin, mark_pre,
  mark_before, copy, encode_pre, stop_waiting, encode_post,
}
use infinity_station.Kits.SaveVideo.Spans.{span}
use infinity_station.Kits.SaveVideo.Window.{first_recording}
use infinity_station.Kits.SaveVideo.Bounds.{lost_frames}

-- Frame 0 is in the cache and at hand when the recording begins.
abbrev taped : (s : System) × Reach 50 s
taped =
    let r1 = later (later here (film (arrive refl refl))) (film (cache refl)) in
    let r2 = later (later r1 (record_video (begin refl))) (record_video mark_pre) in
    let r2' = later (later r2 (record_video mark_before)) (record_video copy) in
    let r3 = later (later r2' (film (wanted refl))) (film post) in
    let r4 = later (later r3 (record_video encode_pre)) (record_video stop_waiting) in
    let r5 = later r4 (record_video encode_post) in (_, r5)

first_recording_example :
    (a n c k : ℕ) × (taped.0.mem.encoded ≡ span a n ++ span c k) × (a + n ≤ c + 1)
first_recording_example = first_recording taped.1 refl

lost_frames_example :
    (s : System) × Reach 50 s × (s.mem.starts ≡ 1) × (s.mem.encoded ≡ 0 ∷ (3 + 1) ∷ [])
lost_frames_example = lost_frames 3 (omega arith)
