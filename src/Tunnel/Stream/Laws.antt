-- ===== src/Tunnel/Stream/Laws.antt =====
-- What `_read_exact` returns depends on the bytes that arrive and not on how they are cut.
use mathlib.Core.Path.{subst}
use mathlib.Core.List.{append-nil, append_assoc}
use meraki_openconnect.Prelude.{
  ℕ, zero, suc, ◌+◌, ◌-◌, ◌≤◌, ◌<◌, ◌≡◌, ◌⊎◌, inl, inr, refl, sym, ap, ◌∙◌, Bool, false, ◌&&◌, List,
  [], ◌∷◌, ◌++◌, Result, ok, err, length, take, drop, leb, ◌==◌, if◌then◌else◌, arith,
  length-append, length-take, take-append-drop, Bool-cases, leb→le, take-append_length,
  drop-append_length,
}
use meraki_openconnect.Tunnel.Errors.{Exn, tunnel_error, eof, ended_mid_frame}
use meraki_openconnect.Tunnel.Stream.{Stream, bytes, read, read_exact_loop, read_exact}

-- A read takes a front part of the bytes, at most n of them, and none only at the end.
record Taken (n : ℕ) (s : Stream) (r : List ℕ × Stream) : Type 0 where
  whole : r.0 ++ bytes r.1 ≡ bytes s
  bounded : length r.0 ≤ n
  none_at_end : length r.0 ≡ 0 → bytes s ≡ []

take_piece :
    (n b : ℕ) (piece : List ℕ) (s : Stream)
    → n < length (b ∷ piece)
    → 0 < n
    → Taken n ((b ∷ piece) ∷ s) (take n (b ∷ piece), drop n (b ∷ piece) ∷ s)
take_piece n b piece s h pos = record {
  whole =
      sym (append_assoc (take n (b ∷ piece)) _ _) ∙ ap (λ t. t ++ bytes s) (take-append-drop n _);
  bounded = omega (arith, length-take n (b ∷ piece));
  none_at_end = λ e. absurd (omega (arith, length-take n (b ∷ piece)));
}

read-Taken : (n : ℕ) (s : Stream) → 0 < n → Taken n s (read n s)
unfolding read
read-Taken n [] h = record { whole = refl; bounded = omega arith; none_at_end = λ e. refl }
read-Taken n ([] ∷ s) h =
    let t = read-Taken n s h in
    record { whole = t.whole; bounded = t.bounded; none_at_end = t.none_at_end }
read-Taken n ((b ∷ piece) ∷ s) h = elim (Bool-cases (leb (length (b ∷ piece)) n)) [
  | inl fits ↦
      rw fits (record {
        whole = refl;
        bounded = leb→le _ _ fits;
        none_at_end = λ e. absurd (omega arith);
      })
  | inr more ↦ rw more (take_piece n b piece s (ground arith) h)
]

-- What a read of exactly n bytes gives when `all` are to come.
abbrev pub expected : ℕ → Bool → List ℕ → Result Exn (List ℕ)
expected n allow_eof all =
    if leb n (length all)
    then ok (take n all)
    else if allow_eof && length all == 0
    then err eof
    else err (tunnel_error ended_mid_frame)

pub expected_of_le :
    (n : ℕ) (allow_eof : Bool) (all : List ℕ)
    → n ≤ length all
    → expected n allow_eof all ≡ ok (take n all)
expected_of_le n allow_eof all h = ground arith

record Exact (n : ℕ) (allow_eof : Bool) (all : List ℕ) (r : Result Exn (List ℕ) × Stream)
    : Type 0 where
  value : r.0 ≡ expected n allow_eof all
  rest : n ≤ length all → bytes r.1 ≡ drop n all

module _ (n : ℕ) (allow_eof : Bool) where
  loop_done :
      (chunks : List ℕ) (s : Stream)
      → length chunks ≡ n
      → Exact n allow_eof (chunks ++ bytes s) (ok chunks, s)
  loop_done chunks s e = record {
    value =
        rw
          (expected_of_le n allow_eof (chunks ++ bytes s)
            (omega (arith, length-append chunks (bytes s))))
          (rw (← e) (ap ok (sym (take-append_length chunks (bytes s)))));
    rest = λ h. rw (← e) (sym (drop-append_length chunks (bytes s)));
  }

  loop_ended :
      (chunks : List ℕ) (s s' : Stream)
      → length chunks < n
      → bytes s ≡ []
      → Exact n allow_eof (chunks ++ bytes s) (
        if allow_eof && length chunks == 0 then err eof else err (tunnel_error ended_mid_frame),
        s',
      )
  loop_ended chunks s s' h e =
      rw (e, append-nil) (record { value = ground arith; rest = λ k. absurd (omega arith) })

  read_exact_loop-Exact :
      (fuel : ℕ) (chunks : List ℕ) (s : Stream)
      → length chunks ≤ n
      → n ≤ length chunks + fuel
      → Exact n allow_eof (chunks ++ bytes s) (read_exact_loop fuel n allow_eof chunks s)
  unfolding read_exact_loop
  read_exact_loop-Exact zero chunks s h k = loop_done chunks s (omega arith)
  read_exact_loop-Exact (suc fuel) chunks s h k = elim (Bool-cases (leb n (length chunks))) [
    | inl full ↦ rw full (loop_done chunks s (ground arith))
    | inr more ↦
        let r = read (n - length chunks) s in
        let t = read-Taken (n - length chunks) s (ground arith) in
        elim (Bool-cases (length r.0 == 0)) [
          | inl end ↦
              rw (more, end) (loop_ended chunks s r.1 (ground arith) (t.none_at_end (ground arith)))
          | inr some_byte ↦
              rw (more, some_byte)
                (subst
                  (λ all.
                    Exact n allow_eof all (read_exact_loop fuel n allow_eof (chunks ++ r.0) r.1))
                  (append_assoc chunks r.0 (bytes r.1) ∙ ap (λ x. chunks ++ x) t.whole)
                  (read_exact_loop-Exact fuel (chunks ++ r.0) r.1 (bound r t) (enough r some_byte)))
        ]
  ]
    where
      bound : (r : List ℕ × Stream) → Taken (n - length chunks) s r → length (chunks ++ r.0) ≤ n
      bound r t = omega (arith, length-append chunks r.0, t.bounded)

      enough : (r : List ℕ × Stream) → (length r.0 == 0) ≡ false → n ≤ length (chunks ++ r.0) + fuel
      enough r e = ground (arith, length-append chunks r.0)

pub read_exact_cases :
    (n : ℕ) (allow_eof : Bool) (s : Stream)
    → ((read_exact n allow_eof s).0 ≡ expected n allow_eof (bytes s))
      × (n ≤ length (bytes s) → bytes (read_exact n allow_eof s).1 ≡ drop n (bytes s))
unfolding read_exact
read_exact_cases n allow_eof s =
    let e = read_exact_loop-Exact n allow_eof n [] s (omega arith) (omega arith) in
    (e.value, e.rest)

-- However the bytes are cut, a read of n bytes returns the first n and leaves the others, or tells
-- the end of the stream from an end in the middle.
pub read_exact-eq-expected :
    (n : ℕ) (allow_eof : Bool) (s : Stream)
    → ((read_exact n allow_eof s).0 ≡ expected n allow_eof (bytes s))
      × ((length (bytes s) < n) ⊎ (bytes (read_exact n allow_eof s).1 ≡ drop n (bytes s)))
read_exact-eq-expected n allow_eof s =
    let (value, rest) = read_exact_cases n allow_eof s in
    elim (Bool-cases (leb n (length (bytes s)))) [
      | inl h ↦ (value, inr (rest (ground (arith, h))))
      | inr h ↦ (value, inl (ground (arith, h)))
    ]
