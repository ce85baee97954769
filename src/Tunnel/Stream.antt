-- ===== src/Tunnel/Stream.antt =====
-- `_read_exact` of tunnel.py, over an unbuffered pipe that hands its bytes over in pieces.
pub mod Laws
use meraki_openconnect.Prelude.{
  ℕ, zero, suc, ◌-◌, Bool, ◌&&◌, List, [], ◌∷◌, ◌++◌, Result, ok, err, length, take, drop, leb,
  ◌==◌, if◌then◌else◌,
}
use meraki_openconnect.Tunnel.Errors.{Exn, tunnel_error, eof, ended_mid_frame}

-- The pieces in which the bytes of the pipe arrive, until its end.
abbrev pub Stream : Type 0
Stream = List (List ℕ)

-- All the bytes, however they are cut.
abbrev pub bytes : Stream → List ℕ
bytes [] = []
bytes (piece ∷ s) = piece ++ bytes s

-- `stream.read(n)` for 0 < n: what has arrived, at most n bytes. No byte means the end.
pub read : ℕ → Stream → List ℕ × Stream
read n [] = ([], [])
read n ([] ∷ s) = read n s
read n (piece ∷ s) = if leb (length piece) n then (piece, s) else (take n piece, drop n piece ∷ s)

-- The loop `while len(chunks) < length`. A round that does not end it takes a byte at least, so
-- `length` rounds are enough.
pub read_exact_loop : ℕ → ℕ → Bool → List ℕ → Stream → Result Exn (List ℕ) × Stream
read_exact_loop zero n allow_eof chunks s = (ok chunks, s)
read_exact_loop (suc fuel) n allow_eof chunks s =
    let (piece, s') = read (n - length chunks) s in
    let rest = read_exact_loop fuel n allow_eof (chunks ++ piece) s' in
    if leb n (length chunks)
    then (ok chunks, s)
    else if length piece == 0
    then (
      if allow_eof && length chunks == 0 then err eof else err (tunnel_error ended_mid_frame),
      s',
    )
    else rest

unfoldable pub read_exact : ℕ → Bool → Stream → Result Exn (List ℕ) × Stream
unfolding read_exact_loop read
read_exact n allow_eof s = read_exact_loop n n allow_eof [] s
