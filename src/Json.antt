-- ===== src/Json.antt =====
-- The values of Python's `json` module, and `json.dumps(…, sort_keys=True, separators=(",", ":"))`
-- with `ensure_ascii`.
pub mod Decimal
pub mod Escape
use meraki_openconnect.Prelude.{
  ℕ, suc, Bool, true, false, ◌||◌, ◌&&◌, List, [], ◌∷◌, ◌++◌, Text, codes, ltb, ◌==◌, if◌then◌else◌,
  Option, none, some, text_eq,
}
use Decimal.{decimal}
use Escape.{quote}

-- A number is an integer, or a float kept as its literal.
mutual
  pub data Json : Type 0 where
    null : Json
    boolean : Bool → Json
    int : ℕ → Json
    -- -(n + 1)
    negative : ℕ → Json
    float : Text → Json
    text : Text → Json
    array : Items → Json
    object : Fields → Json

  pub data Items : Type 0 where
    nil : Items
    item : Json → Items → Items

  pub data Fields : Type 0 where
    end : Fields
    field : Text → Json → Fields → Fields

abbrev pub of_list : List Json → Items
of_list [] = nil
of_list (x ∷ xs) = item x (of_list xs)

abbrev pub to_list : Items → List Json
to_list nil = []
to_list (item x xs) = x ∷ to_list xs

abbrev pub of_pairs : List (Text × Json) → Fields
of_pairs [] = end
of_pairs ((k, v) ∷ rest) = field k v (of_pairs rest)

abbrev pub keys : Fields → List Text
keys end = []
keys (field k v rest) = k ∷ keys rest

-- `value[k]` and `value.get(k)`
abbrev pub get : Text → Fields → Option Json
get k end = none
get k (field j v rest) = if text_eq j k then some v else get k rest

-- The order of texts by code points.
pub text_lt : Text → Text → Bool
text_lt [] [] = false
text_lt [] (b ∷ t) = true
text_lt (a ∷ s) [] = false
text_lt (a ∷ s) (b ∷ t) = ltb a b || a == b && text_lt s t

-- Entries already printed, in the order of their keys.
pub insert_entry : Text → Text → List (Text × Text) → List (Text × Text)
insert_entry k v [] = (k, v) ∷ []
insert_entry k v ((j, w) ∷ rest) =
    if text_lt k j then (k, v) ∷ (j, w) ∷ rest else (j, w) ∷ insert_entry k v rest

pub comma_separated : List Text → Text
comma_separated [] = []
comma_separated (a ∷ []) = a
comma_separated (a ∷ b ∷ rest) = a ++ codes "," ++ comma_separated (b ∷ rest)

pub print_entries : List (Text × Text) → List Text
print_entries [] = []
print_entries ((k, v) ∷ rest) = (quote k ++ codes ":" ++ v) ∷ print_entries rest

unfoldable mutual
  pub dumps : Json → Text
  dumps null = codes "null"
  dumps (boolean true) = codes "true"
  dumps (boolean false) = codes "false"
  dumps (int n) = decimal n
  dumps (negative n) = codes "-" ++ decimal (suc n)
  dumps (float literal) = literal
  dumps (text s) = quote s
  dumps (array xs) = codes "[" ++ comma_separated (dumps_items xs) ++ codes "]"
  dumps (object fs) = codes "{" ++ comma_separated (print_entries (dumps_fields fs)) ++ codes "}"

  dumps_items : Items → List Text
  dumps_items nil = []
  dumps_items (item x xs) = dumps x ∷ dumps_items xs

  dumps_fields : Fields → List (Text × Text)
  dumps_fields end = []
  dumps_fields (field k v rest) = insert_entry k (dumps v) (dumps_fields rest)
