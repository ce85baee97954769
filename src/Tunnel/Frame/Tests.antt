-- ===== src/Tunnel/Frame/Tests.antt =====
-- The theorems on frames, applied to two frames whose bytes are cut inside a header.
use mathlib.Core.List.{append-nil}
use meraki_openconnect.Prelude.{
  ℕ, ◌≡◌, ◌<◌, refl, List, [], ◌∷◌, ◌++◌, ap, ◌∙◌, take, drop, take-append-drop, length, arith,
}
use meraki_openconnect.Tunnel.Errors.{eof}
use meraki_openconnect.Tunnel.Stream.{Stream, bytes}
use meraki_openconnect.Tunnel.Frame.{Frame, make_frame}
use meraki_openconnect.Tunnel.Frame.Laws.{IsFrame}
use meraki_openconnect.Tunnel.Frame.Sequence.{write_all, read_all, read_all-write_all}
use meraki_openconnect.Tests.Data.{stage_frame, connected_frame}

stage_frame-IsFrame : IsFrame stage_frame
unfolding make_frame
stage_frame-IsFrame = refl

connected_frame-IsFrame : IsFrame connected_frame
unfolding make_frame
connected_frame-IsFrame = refl

abbrev cut : List ℕ → Stream
cut written = take 3 written ∷ drop 3 written ∷ []

bytes-cut : (written : List ℕ) → bytes (cut written) ≡ written
bytes-cut written =
    ap (λ t. take 3 written ++ t) (append-nil (drop 3 written)) ∙ take-append-drop 3 written

abbrev two_frames : List Frame
two_frames = stage_frame ∷ connected_frame ∷ []

few : length two_frames < 3
few = omega arith

read_all-write_all_example : read_all 3 (cut (write_all [] two_frames)) ≡ (two_frames, eof)
read_all-write_all_example =
    read_all-write_all 3 two_frames (cut (write_all [] two_frames)) few
      (stage_frame-IsFrame, (connected_frame-IsFrame, tt)) (bytes-cut (write_all [] two_frames))
