-- ===== src/NextFrames/Gathered.antt =====
-- What ReadNextFrames has read when it returns, whatever arrives.
use wlgows.Base.{
  ℕ, suc, zero, ◌<◌, ◌≡◌, refl, sym, ap, ◌∙◌, Bool, true, false, Option, none, some, [], ◌∷◌, ◌++◌,
  length, length-append, All, All-append, arith, inl, inr, Bool-cases, if◌then◌else◌,
}
use wlgows.Base.Bytes.{Bytes}
use wlgows.Errors.{Error}
use wlgows.Frame.{Frame}
use wlgows.Message.{Frames}
use wlgows.Read.{Reader, Read, returned, panicked, get_frame_from_reader}
use wlgows.Read.Consumed.{get_frame_from_reader-IsReading}
use wlgows.Conn.{Conn}
use wlgows.Peer.{Reads, done, next}
use wlgows.NextFrames.{append_next, read_rounds, read_next_frames}

abbrev pub IsUnfinished : Frame → Type 0
IsUnfinished f = f.fin ≡ false

-- The results that a message, or the error that cuts it, allows: the frames are what was read, in its
-- order, and only the last frame of a message has FIN.
pub data Gathered (limit : ℕ) (r : Reader) : Read Frames → Type 0 where
  whole :
      {frames : Frames} {f : Frame} {r' r'' : Reader}
      → Reads limit r frames r'
      → All IsUnfinished frames
      → get_frame_from_reader r' limit ≡ returned f none r''
      → f.fin ≡ true
      → Gathered limit r (returned (frames ++ (f ∷ [])) none r'')
  cut :
      {frames : Frames} {f : Frame} {e : Error} {r' r'' : Reader}
      → Reads limit r frames r'
      → All IsUnfinished frames
      → get_frame_from_reader r' limit ≡ returned f (some e) r''
      → Gathered limit r (returned frames (some e) r'')
  overrun :
      {frames : Frames} {r' : Reader}
      → Reads limit r frames r'
      → All IsUnfinished frames
      → get_frame_from_reader r' limit ≡ panicked
      → Gathered limit r panicked

pub Reads-append :
    {limit : ℕ} {r r' r'' : Reader} {fs gs : Frames}
    → Reads limit r fs r'
    → Reads limit r' gs r''
    → Reads limit r (fs ++ gs) r''
Reads-append done k = k
Reads-append (next e h) k = next e (Reads-append h k)

-- A frame takes bytes.
pub reader_shrinks :
    (r : Reader) (limit : ℕ) {f : Frame} {r' : Reader}
    → get_frame_from_reader r limit ≡ returned f none r'
    → length r'.pending < length r.pending
reader_shrinks r limit {f} {r'} h =
    let (b0, b1, extended, key, body, takes, reading, within) =
      get_frame_from_reader-IsReading r limit h in
    omega (
      arith,
      ap (λ (x : Bytes). length x) takes.pending,
      length-append ((extended ++ key) ++ body) r'.pending,
    )

module _ (conn : Conn) (limit : ℕ) where
  abbrev Outcome : Reader → Option (Read Frames) → Type 0
  Outcome r x = (y : Read Frames) × (x ≡ some y) × Gathered limit r y

  append_next-Gathered :
      (again : Frames → Reader → Option (Read Frames)) {r0 r : Reader} {frames : Frames}
      (m : Read Frame)
      → m ≡ get_frame_from_reader r limit
      → Reads limit r0 frames r
      → All IsUnfinished frames
      → ((fs : Frames) (r' : Reader)
          → length r'.pending < length r.pending
          → Reads limit r0 fs r'
          → All IsUnfinished fs
          → Outcome r0 (again fs r'))
      → Outcome r0 (append_next frames m again)
  unfolding append_next
  append_next-Gathered again {frames = frames} panicked got reads unfinished go =
      (panicked, refl, overrun reads unfinished (sym got))
  append_next-Gathered again {frames = frames} (returned f (some e) r') got reads unfinished go =
      (returned frames (some e) r', refl, cut reads unfinished (sym got))
  append_next-Gathered again {r = r} {frames = frames} (returned f none r') got reads unfinished
        go =
      let frames' = frames ++ (f ∷ []) in
      let step : Bool → Option (Read Frames) =
        λ last. if last then some (returned frames' none r') else again frames' r' in
      elim (Bool-cases f.fin) [
        | inl last ↦ (returned frames' none r', ap step last, whole reads unfinished (sym got) last)
        | inr more ↦
            let (y, is_y, gathered) =
              go frames' r' (reader_shrinks r limit (sym got))
                (Reads-append reads (next (sym got) done))
                (All-append IsUnfinished frames (f ∷ []) unfinished (more, tt)) in
            (y, ap step more ∙ is_y, gathered)
      ]

  read_rounds-Gathered :
      (rounds : ℕ) {r0 : Reader} (r : Reader) (frames : Frames)
      → length r.pending < rounds
      → Reads limit r0 frames r
      → All IsUnfinished frames
      → Outcome r0 (read_rounds rounds limit conn frames r)
  unfolding read_rounds
  read_rounds-Gathered zero r frames enough reads unfinished =
      let impossible : ⊥ = omega arith in absurd impossible
  read_rounds-Gathered (suc rounds) r frames enough reads unfinished =
      append_next-Gathered _ (get_frame_from_reader r limit) refl reads unfinished
        (λ fs r' less reads' unfinished'.
          read_rounds-Gathered rounds r' fs (omega arith) reads' unfinished')

  -- ReadNextFrames ends on every stream and for every limit. Where it returns without an error, it has
  -- read its frames one after the other, and the last is the only one with FIN; where it returns an error,
  -- it has read the frames that it returns, none with FIN, and the error is the next read's; it panics
  -- only where a read does.
  pub read_next_frames-Gathered :
      (x : Read Frames) × (read_next_frames conn limit ≡ some x) × Gathered limit conn.reader x
  unfolding read_next_frames
  read_next_frames-Gathered =
      read_rounds-Gathered (suc (length conn.reader.pending)) conn.reader [] (omega arith) done tt
