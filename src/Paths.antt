-- ===== src/Paths.antt =====
-- The parts of pathlib that the program uses, on absolute paths.
use meraki_openconnect.Prelude.{
  Bool, not, ◌&&◌, ◌||◌, List, [], ◌∷◌, ◌++◌, Text, codes, text_eq, starts_with, length, ◌==◌,
  if◌then◌else◌,
}
use meraki_openconnect.Ip.{parts}

-- The parts of a path in pathlib
unfoldable pub kept_parts : List Text → List Text
kept_parts [] = []
kept_parts (part ∷ rest) =
    let more = kept_parts rest in
    if length part == 0 || text_eq part (codes ".") then more else part ∷ more

unfoldable pub last_part : List Text → Text
last_part [] = []
last_part (part ∷ []) = part
last_part (a ∷ b ∷ rest) = last_part (b ∷ rest)

-- The text of the path without its last part
unfoldable pub parent_text : List Text → Text
parent_text [] = []
parent_text (part ∷ []) = []
parent_text (a ∷ b ∷ rest) = b'/' ∷ a ++ parent_text (b ∷ rest)

-- Exactly two slashes at the front are another root.
abbrev pub has_plain_root : Text → Bool
has_plain_root s = not (starts_with s (codes "//") && not (starts_with s (codes "///")))

-- `Path(s).name`
unfoldable pub path_name : Text → Text
unfolding kept_parts last_part
path_name s = last_part (kept_parts (parts b'/' s))
