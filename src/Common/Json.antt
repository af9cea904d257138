-- ===== src/Common/Json.antt =====
-- JSON values. A number is kept as its printed form.
use Prim.Native.Nat.{ℕ, ◌+◌, ◌/◌, ◌%◌}
use mathlib.Core.Bool.{Bool, true, false}
use mathlib.Core.List.{[], ◌∷◌, ◌++◌}
use interiors_api_client.Common.Tests.{ltb, ◌==◌, if◌then◌else◌}
use interiors_api_client.Common.Text.{Text, text, text_eq, text_le}

mutual
  pub data Json : Type 0 where
    null : Json
    bool : Bool → Json
    num : Text → Json
    str : Text → Json
    arr : Items → Json
    obj : Fields → Json

  pub data Items : Type 0 where
    nil : Items
    cons : Json → Items → Items

  pub data Fields : Type 0 where
    end : Fields
    field : Text → Json → Fields → Fields

-- `o[key] = v`: a key that is there keeps its place.
unfoldable pub set_field : Text → Json → Fields → Fields
set_field k v end = field k v end
set_field k v (field j w fs) = if text_eq j k then field j v fs else field j w (set_field k v fs)

-- The fields in the order of their keys.
unfoldable pub insert_field : Text → Json → Fields → Fields
insert_field k v end = field k v end
insert_field k v (field j w fs) =
    let later = insert_field k v fs in
    if text_le k j then field k v (field j w fs) else field j w later

-- A hexadecimal digit.
abbrev hex : ℕ → ℕ
hex n = if ltb n 10 then n + 48 else n + 87

-- A code unit inside quotes, as `JSON.stringify` writes it, but for a surrogate that stands alone,
-- which it escapes and which is left as it is here.
abbrev escape : ℕ → Text
escape c =
    if (c == 34)
    then text "\\\""
    else if c == 92
    then text "\\\\"
    else if c == 8
    then text "\\b"
    else if c == 9
    then text "\\t"
    else if c == 10
    then text "\\n"
    else if c == 12
    then text "\\f"
    else if c == 13
    then text "\\r"
    else if ltb c 32
    then text "\\u00" ++ hex (c / 16) ∷ hex (c % 16) ∷ []
    else c ∷ []

unfoldable pub escape_all : Text → Text
escape_all [] = []
escape_all (c ∷ s) = escape c ++ escape_all s

abbrev pub quote : Text → Text
quote s = b'"' ∷ (escape_all s ++ b'"' ∷ [])

abbrev print_bool : Bool → Text
print_bool true = text "true"
print_bool false = text "false"

-- `JSON.stringify`; the flag says that an item or a field stands before.
unfoldable mutual
  unfolding escape_all

  pub stringify : Json → Text
  stringify null = text "null"
  stringify (bool b) = print_bool b
  stringify (num n) = n
  stringify (str s) = quote s
  stringify (arr xs) = b'[' ∷ stringify_items false xs
  stringify (obj fs) = b'{' ∷ stringify_fields false fs

  pub stringify_items : Bool → Items → Text
  stringify_items later nil = text "]"
  stringify_items later (cons v vs) =
      (if later then text "," else []) ++ (stringify v ++ stringify_items true vs)

  pub stringify_fields : Bool → Fields → Text
  stringify_fields later end = text "}"
  stringify_fields later (field k v fs) =
      (if later then text "," else [])
      ++ (quote k ++ (b':' ∷ (stringify v ++ stringify_fields true fs)))

-- The value with the fields of every object in order.
unfoldable mutual
  unfolding insert_field

  pub ordered : Json → Json
  ordered (arr xs) = arr (ordered_items xs)
  ordered (obj fs) = obj (ordered_fields fs)
  ordered v = v

  pub ordered_items : Items → Items
  ordered_items nil = nil
  ordered_items (cons v vs) = cons (ordered v) (ordered_items vs)

  pub ordered_fields : Fields → Fields
  ordered_fields end = end
  ordered_fields (field k v fs) = insert_field k (ordered v) (ordered_fields fs)
