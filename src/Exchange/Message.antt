-- ===== src/Exchange/Message.antt =====
-- Messages on the private socket, one JSON object to a line: `_read_message` and `_write_message` of
-- callback.py and extension_setup.py, and `_read_controller_message` of native_host.py.
use meraki_openconnect.Prelude.{
  ℕ, zero, suc, ◌+◌, ◌<◌, ◌≡◌, refl, ap, ◌∙◌, Bool, true, not, ◌&&◌, ◌||◌, Option, some, List, [],
  ◌∷◌, ◌++◌, Text, Result, ok, err, length, all, ltb, ◌==◌, if◌then◌else◌, arith, length-append,
}
use mathlib.Core.List.{append_assoc}
use meraki_openconnect.Json.{Json, object, Fields}

-- Python's `json.dumps(…, separators=(",", ":"))`, and `json.loads` of a text and of bytes, with none
-- where it raises a decoding error.
pub record Codec : Type 0 where
  pub dumps : Json → Text
  pub loads : Text → Option Json
  pub loads_bytes : List ℕ → Option Json

pub data MessageError : Type 0 where
  missing_or_too_large invalid : MessageError

-- The number of bytes of `raw.encode()`.
unfoldable pub utf8_length : Text → ℕ
utf8_length [] = 0
utf8_length (c ∷ s) =
    (if ltb c 0x80 then 1 else if ltb c 0x800 then 2 else if ltb c 0x10000 then 3 else 4)
    + utf8_length s

-- `stream.readline(size)`: what it takes of the text that is to come.
unfoldable pub readline : ℕ → Text → Text
readline zero text = []
readline (suc size) [] = []
readline (suc size) (c ∷ text) =
    let rest = readline size text in if c == 0x0a then c ∷ [] else c ∷ rest

abbrev pub as_message : Option Json → Result MessageError Fields
as_message (some (object fs)) = ok fs
as_message _ = err invalid

-- `_read_message` and `_read_controller_message`, from what `readline` returned, with the greatest
-- number of bytes.
unfoldable pub read_message : Codec → ℕ → Text → Result MessageError Fields
read_message codec limit raw =
    if length raw == 0 || ltb limit (utf8_length raw)
    then err missing_or_too_large
    else as_message (codec.loads raw)

-- `_write_message`
abbrev pub line : Codec → Fields → Text
line codec fs = codec.dumps (object fs) ++ 0x0a ∷ []

-- What `json.dumps` writes in ASCII, without a line break.
abbrev pub is_line_character : ℕ → Bool
is_line_character c = ltb c 0x80 && not (c == 0x0a)

-- A message that `json.dumps` writes on one line that `json.loads` reads back, of fewer bytes than
-- the limit.
pub record IsCarried (codec : Codec) (limit : ℕ) (fs : Fields) : Type 0 where
  pub one_line : all is_line_character (codec.dumps (object fs)) ≡ true
  pub reads_back : codec.loads (line codec fs) ≡ some (object fs)
  pub fits : length (codec.dumps (object fs)) < limit

readline-line :
    (size : ℕ) (text rest : Text)
    → all is_line_character text ≡ true
    → length text < size
    → readline size (text ++ 0x0a ∷ rest) ≡ text ++ 0x0a ∷ []
unfolding readline
readline-line zero text rest h k = elim k [ ]
readline-line (suc size) [] rest h k = refl
readline-line (suc size) (c ∷ text) rest h k =
    grind (arith, readline-line size text rest (ground arith) (omega arith))

utf8_length-line :
    (text : Text)
    → all is_line_character text ≡ true
    → utf8_length (text ++ 0x0a ∷ []) ≡ suc (length text)
unfolding utf8_length
utf8_length-line [] h = refl
utf8_length-line (c ∷ text) h = ground (arith, utf8_length-line text (ground arith))

-- A carried message is read back from the line that it was written on, whatever follows the line.
pub read_message-line :
    (codec : Codec) (limit : ℕ) (fs : Fields) (rest : Text)
    → IsCarried codec limit fs
    → read_message codec limit (readline (suc limit) (line codec fs ++ rest)) ≡ ok fs
unfolding read_message
read_message-line codec limit fs rest h =
    let text = codec.dumps (object fs) in
    let raw : readline (suc limit) (line codec fs ++ rest) ≡ line codec fs =
      ap (readline (suc limit)) (append_assoc text (0x0a ∷ []) rest)
      ∙ readline-line (suc limit) text rest h.one_line (omega (arith, h.fits)) in
    rw (raw, h.reads_back)
      (ground (arith, h.fits, utf8_length-line text h.one_line, length-append text (0x0a ∷ [])))
