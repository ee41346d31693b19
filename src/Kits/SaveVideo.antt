-- ===== src/Kits/SaveVideo.antt =====
-- src/kits/common/save_video_by_ffmpeg/SaveVideoCache.cpp: the frames of the seconds before and after an
-- alarm. One camera thread calls `pushOriginalImage`, one recording thread at a time runs the body of
-- `startRecord`, and a step is what a thread does between two accesses of shared memory. A frame is its
-- number in the order of arrival. The encoder and the muxer are the list of the frames given to them.
pub mod Spans
pub mod Window
pub mod Bounds
use infinity_station.Base.{
  ℕ, zero, suc, ◌+◌, ◌≡◌, Bool, true, false, List, [], ◌∷◌, ◌++◌, length, ltb, if◌then◌else◌,
}

pub record Memory : Type 0 where
  pub is_record_video : Bool
  pub is_recording : Bool
  pub is_pre_recording : Bool
  pub is_before_recording : Bool
  pub cache_locked : Bool  -- m_preCacheMutex is held by the recording thread
  pub pre_record : List ℕ  -- m_pre_original_record
  pub post_record : List ℕ  -- m_post_original_record
  pub next : ℕ  -- the frame at hand, or the next to come
  pub encoded : List ℕ  -- the frames of the file that was begun last
  pub starts : ℕ  -- recordings begun so far

-- Where the camera thread stands in `pushOriginalImage`.
pub data CameraPc : Type 0 where
  idle : CameraPc
  caching : CameraPc  -- has read that no pre-recording is on
  testing : CameraPc  -- before it reads m_isBeforeRecording
  posting : CameraPc  -- has read that a recording wants the frame

-- Where the recording thread stands.
pub data RecorderPc : Type 0 where
  none : RecorderPc
  spawned : RecorderPc
  marking : RecorderPc  -- has stored m_isPreRecording, with the lock of the cache
  copying : RecorderPc  -- has stored m_isBeforeRecording too
  opening : (frames : List ℕ) → RecorderPc  -- with the copy of the frames before
  waiting : RecorderPc
  encoding : (frames : List ℕ) → RecorderPc  -- with the copy of the frames after
  clearing : RecorderPc
  finishing : RecorderPc

-- `while (m_pre_original_record.size() > max_pre_frames) pop_front()`
unfoldable pub trim : ℕ → List ℕ → List ℕ
trim max [] = []
trim max (x ∷ xs) = let rest = trim max xs in if ltb max (length (x ∷ xs)) then rest else x ∷ xs

-- The camera thread, where the cache may hold `max` frames, those of five seconds.
pub data CameraMove (max : ℕ) (m : Memory) : CameraPc → Memory → CameraPc → Type 0 where
  ignore : m.is_record_video ≡ false → CameraMove max m idle (record m { next = m.next + 1 }) idle
  arrive : m.is_record_video ≡ true → m.is_pre_recording ≡ false → CameraMove max m idle m caching
  arrive_later :
      m.is_record_video ≡ true → m.is_pre_recording ≡ true → CameraMove max m idle m testing
  cache :
      m.cache_locked ≡ false
      → CameraMove max m caching
          (record m { pre_record = trim max (m.pre_record ++ m.next ∷ []) })
          testing
  wanted : m.is_before_recording ≡ true → CameraMove max m testing m posting
  unwanted :
      m.is_before_recording ≡ false → CameraMove max m testing (record m { next = m.next + 1 }) idle
  post :
      CameraMove max m posting
        (record m { post_record = m.post_record ++ m.next ∷ []; next = m.next + 1 })
        idle

abbrev pub abandoned : Memory → Memory
abandoned m = record m {
  is_recording = false;
  is_pre_recording = false;
  is_before_recording = false;
  post_record = [];
}

-- `startRecord` and the thread that it starts. The wait for the frames after may end at any time, by
-- their number or by its five seconds.
pub data RecorderMove (m : Memory) : RecorderPc → Memory → RecorderPc → Type 0 where
  busy : {r : RecorderPc} → m.is_recording ≡ true → RecorderMove m r m r
  begin :
      m.is_recording ≡ false
      → RecorderMove m none
          (record m { is_recording = true; encoded = []; starts = m.starts + 1 })
          spawned
  mark_pre :
      RecorderMove m spawned (record m { cache_locked = true; is_pre_recording = true }) marking
  mark_before : RecorderMove m marking (record m { is_before_recording = true }) copying
  copy : RecorderMove m copying (record m { cache_locked = false }) (opening m.pre_record)
  -- the encoder or the muxer cannot be opened, or the encoder throws
  fail : {frames : List ℕ} → RecorderMove m (opening frames) (abandoned m) none
  encode_pre :
      {frames : List ℕ}
      → RecorderMove m
          (opening frames)
          (record m { encoded = m.encoded ++ frames; is_pre_recording = false })
          waiting
  stop_waiting :
      RecorderMove m waiting (record m { is_before_recording = false }) (encoding m.post_record)
  encode_post :
      {frames : List ℕ}
      → RecorderMove m (encoding frames) (record m { encoded = m.encoded ++ frames }) clearing
  throw : {frames : List ℕ} → RecorderMove m (encoding frames) (abandoned m) none
  clear : RecorderMove m clearing (record m { post_record = [] }) finishing
  finish : RecorderMove m finishing (record m { is_recording = false }) none

pub record System : Type 0 where
  pub mem : Memory
  pub camera : CameraPc
  pub recorder : RecorderPc

-- After `initSaveVideo`.
abbrev pub start : System
start = record {
  mem = record {
    is_record_video = true;
    is_recording = false;
    is_pre_recording = false;
    is_before_recording = false;
    cache_locked = false;
    pre_record = [];
    post_record = [];
    next = 0;
    encoded = [];
    starts = 0;
  };
  camera = idle;
  recorder = none;
}

pub data Step (max : ℕ) (s : System) : System → Type 0 where
  film :
      {m : Memory} {c : CameraPc}
      → CameraMove max s.mem s.camera m c
      → Step max s (record s { mem = m; camera = c })
  record_video :
      {m : Memory} {r : RecorderPc}
      → RecorderMove s.mem s.recorder m r
      → Step max s (record s { mem = m; recorder = r })

pub data Reach (max : ℕ) : System → Type 0 where
  here : Reach max start
  later : {s t : System} → Reach max s → Step max s t → Reach max t
