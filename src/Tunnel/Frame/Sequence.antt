-- ===== src/Tunnel/Frame/Sequence.antt =====
-- Many frames on one pipe.
use mathlib.Core.List.{append-nil, append_assoc}
use meraki_openconnect.Prelude.{
  ℕ, zero, suc, ◌<◌, ◌≡◌, sym, ◌∙◌, List, [], ◌∷◌, ◌++◌, ok, err, length, All, arith,
}
use meraki_openconnect.Tunnel.Errors.{Exn, eof}
use meraki_openconnect.Tunnel.Stream.{Stream, bytes}
use meraki_openconnect.Tunnel.Frame.{Frame, write_frame, encode, read_frame}
use meraki_openconnect.Tunnel.Frame.Laws.{IsFrame, read_frame-encode, read_frame-nil}

-- One `write_frame` after another.
pub write_all : List ℕ → List Frame → List ℕ
write_all written [] = written
write_all written (frame ∷ frames) = write_all (write_frame written frame) frames

-- Frames are read until the reader raises; the exception comes last. At most `fuel` are read.
pub read_all : ℕ → Stream → List Frame × Exn
read_all zero s = ([], eof)
read_all (suc fuel) s =
    let (r, s') = read_frame s in
    elim r [
      | err e ↦ ([], e)
      | ok frame ↦ let (frames, e) = read_all fuel s' in (frame ∷ frames, e)
    ]

encoded : List Frame → List ℕ
encoded [] = []
encoded (frame ∷ frames) = encode frame ++ encoded frames

write_all-eq-encoded :
    (written : List ℕ) (frames : List Frame) → write_all written frames ≡ written ++ encoded frames
unfolding write_all write_frame encoded
write_all-eq-encoded written [] = sym (append-nil written)
write_all-eq-encoded written (frame ∷ frames) =
    write_all-eq-encoded (written ++ encode frame) frames ∙ append_assoc written _ _

read_all-encoded :
    (fuel : ℕ) (frames : List Frame) (s : Stream)
    → length frames < fuel
    → All IsFrame frames
    → bytes s ≡ encoded frames
    → read_all fuel s ≡ (frames, eof)
unfolding read_all encoded
read_all-encoded zero frames s h valid e = absurd (omega arith)
read_all-encoded (suc fuel) [] s h valid e = rw (read_frame-nil s e, read_all)
read_all-encoded (suc fuel) (frame ∷ frames) s h valid e =
    let read = read_frame-encode frame (encoded frames) s valid.0 e in
    rw (read.0, read_all)
      (rw (read_all-encoded fuel frames (read_frame s).1 (omega arith) valid.1 read.1))

-- What is written frame by frame is read back frame by frame, in order, and then the stream ends
-- between two frames, however the pipe cuts the bytes.
pub read_all-write_all :
    (fuel : ℕ) (frames : List Frame) (s : Stream)
    → length frames < fuel
    → All IsFrame frames
    → bytes s ≡ write_all [] frames
    → read_all fuel s ≡ (frames, eof)
read_all-write_all fuel frames s h valid e =
    read_all-encoded fuel frames s h valid (e ∙ write_all-eq-encoded [] frames)
