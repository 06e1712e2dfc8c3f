-- ===== src/Json/Access.antt =====
-- The questions that xiaobaios/apps/pkg_cjson_min.c answers about an item, and the items that it makes. A
-- null item is `none`.
use xiaobai_os.Base.{
  ℕ, zero, suc, ◌+◌, Bool, true, false, ◌||◌, if◌then◌else◌, Option, none, some, [], ◌∷◌, ◌==◌,
  Bytes, ℤ, pos,
}
use xiaobai_os.Runtime.Words.{streq}
use xiaobai_os.Json.Value.{
  Value, Items, Fields, null_value, boolean, number, string, raw, array, object, no_items, item,
  no_fields, field,
}

unfoldable pub count_items : Items → ℕ
count_items no_items = 0
count_items (item v xs) = count_items xs + 1

unfoldable pub count_fields : Fields → ℕ
count_fields no_fields = 0
count_fields (field key v fs) = count_fields fs + 1

-- cJSON_GetArraySize counts the children of any item.
unfoldable pub get_array_size : Option Value → ℕ
unfolding count_items count_fields
get_array_size (some (array xs)) = count_items xs
get_array_size (some (object fs)) = count_fields fs
get_array_size _ = 0

unfoldable pub nth_item : ℕ → Items → Option Value
nth_item i no_items = none
nth_item zero (item v xs) = some v
nth_item (suc i) (item v xs) = nth_item i xs

unfoldable pub nth_field : ℕ → Fields → Option Value
nth_field i no_fields = none
nth_field zero (field key v fs) = some v
nth_field (suc i) (field key v fs) = nth_field i fs

unfoldable pub get_array_item : Option Value → ℤ → Option Value
unfolding nth_item nth_field
get_array_item (some (array xs)) (pos i) = nth_item i xs
get_array_item (some (object fs)) (pos i) = nth_field i fs
get_array_item _ _ = none

-- The part of a text that `strcmp` reads.
unfoldable pub c_string : Bytes → Bytes
c_string [] = []
c_string (c ∷ s) = let rest = c_string s in if c == 0 then [] else c ∷ rest

-- A field's name may hold a NUL, as the text \u0000 gives, and is compared up to it.
unfoldable pub find_field : Bytes → Fields → Option Value
unfolding c_string
find_field key no_fields = none
find_field key (field k v fs) =
    let rest = find_field key fs in if streq (c_string k) (c_string key) then some v else rest

unfoldable pub get_object_item : Option Value → Option Bytes → Option Value
unfolding find_field
get_object_item (some (object fs)) (some key) = find_field key fs
get_object_item _ _ = none

unfoldable pub has_object_item : Option Value → Option Bytes → Bool
has_object_item v key = elim (get_object_item v key) [ some w ↦ true | none ↦ false ]

pub is_false : Option Value → Bool
is_false (some (boolean false)) = true
is_false _ = false

pub is_true : Option Value → Bool
is_true (some (boolean true)) = true
is_true _ = false

pub is_bool : Option Value → Bool
is_bool v = is_false v || is_true v

pub is_null : Option Value → Bool
is_null (some null_value) = true
is_null _ = false

pub is_number : Option Value → Bool
is_number (some (number n)) = true
is_number _ = false

unfoldable pub is_string : Option Value → Bool
is_string (some (string s)) = true
is_string _ = false

pub is_array : Option Value → Bool
is_array (some (array xs)) = true
is_array _ = false

pub is_object : Option Value → Bool
is_object (some (object fs)) = true
is_object _ = false

pub is_raw : Option Value → Bool
is_raw (some (raw s)) = true
is_raw _ = false

unfoldable pub get_string_value : Option Value → Option Bytes
get_string_value (some (string s)) = some s
get_string_value _ = none

-- The item after the call, and the text that it returns.
unfoldable pub set_valuestring : Option Value → Option Bytes → Option Value × Option Bytes
set_valuestring (some (string s)) (some text) = (some (string text), some text)
set_valuestring v text = (v, none)

pub set_number_helper : Option Value → Option Value
set_number_helper (some v) = some (number (pos 0))
set_number_helper none = none

pub create_bool : Bool → Value
create_bool b = boolean b

-- The number itself is dropped.
pub create_number : Value
create_number = number (pos 0)

-- `none` for a null text.
pub create_string : Option Bytes → Option Value
create_string (some s) = some (string s)
create_string none = none

pub create_raw : Option Bytes → Option Value
create_raw (some s) = some (raw s)
create_raw none = none
