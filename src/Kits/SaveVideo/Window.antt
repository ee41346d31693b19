-- ===== src/Kits/SaveVideo/Window.antt =====
-- The frames in the first file that is recorded.
use infinity_station.Base.{
  ℕ, suc, ◌+◌, ◌≤◌, ◌≡◌, refl, ap, ap₂, sym, subst, ◌∙◌, Bool, true, false, List, [], ◌∷◌, ◌++◌,
  arith,
}
use mathlib.Core.List.{append-nil}
use infinity_station.Kits.SaveVideo.Spans.{span, span-snoc, IsSpanTo, IsSpanTo-cache}
use infinity_station.Kits.SaveVideo.{
  Memory, CameraPc, idle, caching, testing, posting, RecorderPc, none, spawned, marking, copying,
  opening, waiting, encoding, clearing, finishing, CameraMove, ignore, arrive, arrive_later, cache,
  wanted, unwanted, post, RecorderMove, busy, begin, mark_pre, mark_before, copy, fail, encode_pre,
  stop_waiting, encode_post, throw, clear, finish, System, start, film, record_video, Reach, here,
  later,
}

-- The frames that are in the cache before a recording.
abbrev cached_to : ℕ → CameraPc → ℕ
cached_to next testing = suc next
cached_to next _ = next

abbrev is_posting : CameraPc → Bool
is_posting posting = true
is_posting _ = false

record Before (m : Memory) (c : CameraPc) : Type 0 where
  no_pre : m.is_pre_recording ≡ false
  no_before : m.is_before_recording ≡ false
  no_post : m.post_record ≡ []
  no_posting : is_posting c ≡ false
  pre : IsSpanTo m.pre_record (cached_to m.next c)

-- The frames before, while no frame is cached.
abbrev Behind : List ℕ → ℕ → Type 0
Behind xs next = (a : ℕ) × (n : ℕ) × (xs ≡ span a n) × (a + n ≤ next + 1)

-- Two runs of frames of which the second begins after the first, or with its last frame.
abbrev Meets : ℕ → ℕ → ℕ → Type 0
Meets a n c = a + n ≤ c + 1

-- A first run, and the frames from the second's start to the next one to come.
abbrev Joined : List ℕ → List ℕ → ℕ → Type 0
Joined xs ys next =
    (a : ℕ) × (n : ℕ) × (c : ℕ) × (k : ℕ) × (xs ≡ span a n)
    × (ys ≡ span c k)
    × (c + k ≡ next)
    × Meets a n c

abbrev pub Window : List ℕ → Type 0
Window xs = (a : ℕ) × (n : ℕ) × (c : ℕ) × (k : ℕ) × (xs ≡ span a n ++ span c k) × (a + n ≤ c + 1)

-- What holds of the first recording while the recording thread stands at `r`.
abbrev First : Memory → CameraPc → RecorderPc → Type 0
First m c none = Window m.encoded
First m c spawned = Before m c × (m.encoded ≡ [])
First m c marking =
    (m.is_before_recording ≡ false)
    × (m.post_record ≡ [])
    × (is_posting c ≡ false)
    × (m.cache_locked ≡ true)
    × (m.encoded ≡ [])
    × Behind m.pre_record m.next
First m c copying =
    (m.is_before_recording ≡ true)
    × (m.cache_locked ≡ true)
    × (m.encoded ≡ [])
    × Joined m.pre_record m.post_record m.next
First m c (opening frames) =
    (m.is_before_recording ≡ true) × (m.encoded ≡ []) × Joined frames m.post_record m.next
First m c waiting = (m.is_before_recording ≡ true) × Joined m.encoded m.post_record m.next
First m c (encoding frames) =
    (a : ℕ) × (n : ℕ) × (b : ℕ) × (k : ℕ) × (m.encoded ≡ span a n)
    × (frames ≡ span b k)
    × Meets a n b
First m c clearing = Window m.encoded
First m c finishing = Window m.encoded

abbrev begun : RecorderPc → ℕ
begun none = 0
begun _ = 1

record Inv (m : Memory) (c : CameraPc) (r : RecorderPc) : Type 0 where
  recording : m.is_record_video ≡ true
  count : begun r ≤ m.starts
  waits : m.starts ≡ 0 → Before m c
  first : m.starts ≡ 1 → First m c r

module _ {max : ℕ} where
  film-Before :
      {m m' : Memory} {c c' : CameraPc}
      → CameraMove max m c m' c'
      → m.is_record_video ≡ true
      → Before m c
      → Before m' c'
  film-Before (ignore off) on b = cc
  film-Before (arrive on quiet) _ b = record {
    no_pre = b.no_pre;
    no_before = b.no_before;
    no_post = b.no_post;
    no_posting = refl;
    pre = b.pre;
  }
  film-Before (arrive_later on pre) _ b = absurd (cc (b.no_pre, pre))
  film-Before {m} (cache free) on b = record {
    no_pre = b.no_pre;
    no_before = b.no_before;
    no_post = b.no_post;
    no_posting = refl;
    pre = IsSpanTo-cache max m.pre_record m.next b.pre;
  }
  film-Before (wanted w) on b = absurd (cc (b.no_before, w))
  film-Before {m} (unwanted w) on b = record {
    no_pre = b.no_pre;
    no_before = b.no_before;
    no_post = b.no_post;
    no_posting = refl;
    pre = subst (IsSpanTo m.pre_record) (omega arith) b.pre;
  }
  film-Before post on b = absurd (cc (b.no_posting))

  film-Joined :
      {m m' : Memory} {c c' : CameraPc} (xs : List ℕ)
      → CameraMove max m c m' c'
      → m.is_record_video ≡ true
      → m.is_before_recording ≡ true
      → Joined xs m.post_record m.next
      → (m'.is_before_recording ≡ true) × Joined xs m'.post_record m'.next
  film-Joined xs (ignore off) on w j = cc
  film-Joined xs (arrive _ quiet) on w j = (w, j)
  film-Joined xs (arrive_later _ pre) on w j = (w, j)
  film-Joined xs (cache free) on w j = (w, j)
  film-Joined xs (wanted _) on w j = (w, j)
  film-Joined xs (unwanted u) on w j = absurd (cc (w, u))
  film-Joined {m} xs post on w (a, n, c, k, is, is', sum, meets) = (
    w,
    (
      a,
      n,
      c,
      suc k,
      is,
      ap (λ l. l ++ m.next ∷ []) is' ∙ ap (λ x. span c k ++ x ∷ []) (sym sum) ∙ span-snoc c k,
      omega (arith, sum),
      meets,
    ),
  )

  -- What the camera thread leaves alone.
  film-kept :
      {m m' : Memory} {c c' : CameraPc}
      → CameraMove max m c m' c'
      → (m'.is_record_video ≡ m.is_record_video) × (m'.starts ≡ m.starts) × (m'.encoded ≡ m.encoded)
  film-kept (ignore _) = (refl, refl, refl)
  film-kept (arrive _ _) = (refl, refl, refl)
  film-kept (arrive_later _ _) = (refl, refl, refl)
  film-kept (cache free) = (refl, refl, refl)
  film-kept (wanted _) = (refl, refl, refl)
  film-kept (unwanted _) = (refl, refl, refl)
  film-kept post = (refl, refl, refl)

  -- The cache is left alone while it is locked.
  film-locked :
      {m m' : Memory} {c c' : CameraPc}
      → CameraMove max m c m' c'
      → m.cache_locked ≡ true
      → (m'.cache_locked ≡ true) × (m'.pre_record ≡ m.pre_record)
  film-locked (ignore _) l = (l, refl)
  film-locked (arrive _ _) l = (l, refl)
  film-locked (arrive_later _ _) l = (l, refl)
  film-locked (cache free) l = cc
  film-locked (wanted _) l = (l, refl)
  film-locked (unwanted _) l = (l, refl)
  film-locked post l = (l, refl)

  film-marking :
      {m m' : Memory} {c c' : CameraPc}
      → CameraMove max m c m' c'
      → m.is_record_video ≡ true
      → First m c marking
      → First m' c' marking
  film-marking (ignore off) on f = cc
  film-marking (arrive _ _) on (w, p, i, l, e, b) = (w, p, refl, l, e, b)
  film-marking (arrive_later _ _) on (w, p, i, l, e, b) = (w, p, refl, l, e, b)
  film-marking (cache free) on (w, p, i, l, e, b) = absurd (cc (free, l))
  film-marking (wanted u) on (w, p, i, l, e, b) = absurd (cc (w, u))
  film-marking (unwanted u) on (w, p, i, l, e, (a, n, is, le)) =
      (w, p, refl, l, e, (a, n, is, omega (arith, le)))
  film-marking post on (w, p, i, l, e, b) = absurd (cc i)

  film-First :
      {m m' : Memory} {c c' : CameraPc} (r : RecorderPc)
      → CameraMove max m c m' c'
      → m.is_record_video ≡ true
      → First m c r
      → First m' c' r
  film-First none mv on f = subst Window (sym (film-kept mv).2) f
  film-First spawned mv on f = (film-Before mv on f.0, (film-kept mv).2 ∙ f.1)
  film-First marking mv on f = film-marking mv on f
  film-First {m} {m'} copying mv on f =
      let (w, j) = film-Joined m.pre_record mv on f.0 f.3 in
      let (locked, same) = film-locked mv f.1 in
      (
        w,
        locked,
        (film-kept mv).2 ∙ f.2,
        subst (λ xs. Joined xs m'.post_record m'.next) (sym same) j,
      )
  film-First (opening frames) mv on f =
      let (w, j) = film-Joined frames mv on f.0 f.2 in (w, (film-kept mv).2 ∙ f.1, j)
  film-First {m} {m'} waiting mv on f =
      let (w, j) = film-Joined m.encoded mv on f.0 f.1 in
      (w, subst (λ xs. Joined xs m'.post_record m'.next) (sym (film-kept mv).2) j)
  film-First (encoding frames) mv on (a, n, b, k, is, is', meets) =
      (a, n, b, k, (film-kept mv).2 ∙ is, is', meets)
  film-First clearing mv on f = subst Window (sym (film-kept mv).2) f
  film-First finishing mv on f = subst Window (sym (film-kept mv).2) f

  film-Inv :
      {m m' : Memory} {c c' : CameraPc} (r : RecorderPc)
      → CameraMove max m c m' c'
      → Inv m c r
      → Inv m' c' r
  film-Inv r mv v =
      let (on, same, _) = film-kept mv in
      record {
        recording = on ∙ v.recording;
        count = omega (arith, same, v.count);
        waits = λ e. film-Before mv v.recording (v.waits (sym same ∙ e));
        first = λ e. film-First r mv v.recording (v.first (sym same ∙ e));
      }

empty_Window : Window []
empty_Window = (0, 0, 0, 0, refl, omega arith)

-- A step of a recording that is under way.
later-Inv :
    (m' : Memory) (c : CameraPc) (r' : RecorderPc)
    → m'.is_record_video ≡ true
    → 1 ≤ m'.starts
    → (m'.starts ≡ 1 → First m' c r')
    → begun r' ≤ m'.starts
    → Inv m' c r'
later-Inv m' c r' on pos f count = record {
  recording = on;
  count = count;
  waits = λ e. absurd (omega (arith, e, pos));
  first = f;
}

cached_bounds : (n : ℕ) (c : CameraPc) → (n ≤ cached_to n c) × (cached_to n c ≤ n + 1)
cached_bounds n idle = omega arith
cached_bounds n caching = omega arith
cached_bounds n testing = omega arith
cached_bounds n posting = omega arith

record-Inv :
    {m m' : Memory} {r r' : RecorderPc} (c : CameraPc)
    → RecorderMove m r m' r'
    → Inv m c r
    → Inv m' c r'
record-Inv c (busy on) v = v
record-Inv {m} c (begin free) v = record {
  recording = v.recording;
  count = omega arith;
  waits = λ e. absurd (omega (arith, e));
  first = λ e.
      let b = v.waits (omega (arith, e)) in
      (
        record {
          no_pre = b.no_pre;
          no_before = b.no_before;
          no_post = b.no_post;
          no_posting = b.no_posting;
          pre = b.pre;
        },
        refl,
      );
}
record-Inv {m} c mark_pre v =
    later-Inv _ c marking v.recording v.count
      (λ e.
        let (b, none_yet) = v.first e in
        let (a, n, is, sum) = b.pre in
        let (low, high) = cached_bounds m.next c in
        (
          b.no_before,
          b.no_post,
          b.no_posting,
          refl,
          none_yet,
          (a, n, is, omega (arith, sum, high)),
        ))
      v.count
record-Inv {m} c mark_before v =
    later-Inv _ c copying v.recording v.count
      (λ e.
        let (w, p, i, l, none_yet, (a, n, is, le)) = v.first e in
        (refl, l, none_yet, (a, n, m.next, 0, is, p, omega arith, le)))
      v.count
record-Inv {m} c copy v =
    later-Inv _ c (opening m.pre_record) v.recording v.count
      (λ e. let (w, l, none_yet, j) = v.first e in (w, none_yet, j)) v.count
record-Inv {m} c (fail) v =
    later-Inv _ c none v.recording v.count (λ e. subst Window (sym (v.first e).1) empty_Window)
      (omega arith)
record-Inv {m} c (encode_pre {frames}) v =
    later-Inv _ c waiting v.recording v.count
      (λ e.
        let (w, none_yet, j) = v.first e in
        (w, subst (λ xs. Joined xs m.post_record m.next) (sym (ap (λ l. l ++ frames) none_yet)) j))
      v.count
record-Inv {m} c stop_waiting v =
    later-Inv _ c (encoding m.post_record) v.recording v.count
      (λ e. let (w, (a, n, b, k, is, is', sum, meets)) = v.first e in (a, n, b, k, is, is', meets))
      v.count
record-Inv {m} c (encode_post {frames}) v =
    later-Inv _ c clearing v.recording v.count
      (λ e. let (a, n, b, k, is, is', meets) = v.first e in (a, n, b, k, ap₂ ◌++◌ is is', meets))
      v.count
record-Inv {m} c (throw) v =
    later-Inv _ c none v.recording v.count
      (λ e.
        let (a, n, b, k, is, is', meets) = v.first e in
        (a, n, a + n, 0, is ∙ sym (append-nil (span a n)), omega arith))
      (omega arith)
record-Inv c clear v = later-Inv _ c finishing v.recording v.count v.first v.count
record-Inv c finish v = later-Inv _ c none v.recording v.count v.first (omega arith)

start-Inv : Inv start.mem start.camera start.recorder
start-Inv = record {
  recording = refl;
  count = omega arith;
  waits = λ e. record {
    no_pre = refl;
    no_before = refl;
    no_post = refl;
    no_posting = refl;
    pre = (0, 0, refl, refl);
  };
  first = λ e. absurd (omega (arith, e));
}

Reach-Inv : {max : ℕ} {s : System} → Reach max s → Inv s.mem s.camera s.recorder
Reach-Inv here = start-Inv
Reach-Inv (later {s = s} r (film mv)) = film-Inv s.recorder mv (Reach-Inv r)
Reach-Inv (later {s = s} r (record_video mv)) = record-Inv s.camera mv (Reach-Inv r)

First-Window : (m : Memory) (c : CameraPc) (r : RecorderPc) → First m c r → Window m.encoded
First-Window m c none f = f
First-Window m c spawned f = subst Window (sym f.1) empty_Window
First-Window m c marking (_, _, _, _, e, _) = subst Window (sym e) empty_Window
First-Window m c copying (_, _, e, _) = subst Window (sym e) empty_Window
First-Window m c (opening frames) f = subst Window (sym f.1) empty_Window
First-Window m c waiting (w, (a, n, _, _, is, _, _, _)) =
    (a, n, a + n, 0, is ∙ sym (append-nil (span a n)), omega arith)
First-Window m c (encoding frames) (a, n, _, _, is, _, _) =
    (a, n, a + n, 0, is ∙ sym (append-nil (span a n)), omega arith)
First-Window m c clearing f = f
First-Window m c finishing f = f

-- In any state that the camera thread and the recording thread reach in the first recording, the frames
-- given to the encoder are two runs of consecutive frames, and the second begins after the end of the
-- first or with its last frame: the order of arrival is kept, at most one frame is there twice, and
-- frames are missing at no place but that between the runs.
pub first_recording :
    {max : ℕ} {s : System}
    → Reach max s
    → s.mem.starts ≡ 1
    → (a n c k : ℕ) × (s.mem.encoded ≡ span a n ++ span c k) × (a + n ≤ c + 1)
first_recording {s = s} r one = First-Window s.mem s.camera s.recorder ((Reach-Inv r).first one)
