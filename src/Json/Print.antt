-- ===== src/Json/Print.antt =====
-- A compact printer, against which the reader of xiaobaios/apps/pkg_cjson_min.c is specified. The file's
-- own printing functions print nothing.
pub mod Strings
pub mod Numbers
pub mod Heads
pub mod Steps
use xiaobai_os.Base.{
  ℕ, zero, suc, ◌+◌, ◌-◌, ◌/◌, ◌%◌, ◌≤◌, Bool, true, false, ◌||◌, ◌==◌, ltb, if◌then◌else◌, [], ◌∷◌,
  ◌++◌, Bytes, codes, ℤ, pos, negsuc,
}
use xiaobai_os.Json.Number.{int_max}
use xiaobai_os.Json.Value.{
  Value, Items, Fields, null_value, boolean, number, string, raw, array, object, no_items, item,
  no_fields, field,
}

unfoldable pub show_hex : ℕ → ℕ
show_hex n = if ltb n 10 then b'0' + n else b'a' + (n - 10)

-- A string's text between its quotes: control characters as `\u00..`, quotes and backslashes escaped.
unfoldable pub escaped : Bytes → Bytes
unfolding show_hex
escaped [] = []
escaped (c ∷ s) =
    let rest = escaped s in
    if c == b'"' || c == b'\\'
    then b'\\' ∷ c ∷ rest
    else if ltb c 0x20
    then b'\\' ∷ b'u' ∷ b'0' ∷ b'0' ∷ show_hex (c / 16) ∷ show_hex (c % 16) ∷ rest
    else c ∷ rest

abbrev pub quoted : Bytes → Bytes
quoted s = b'"' ∷ (escaped s ++ (b'"' ∷ []))

-- The decimal digits of a number below the fuel.
unfoldable pub show_from : ℕ → ℕ → Bytes
show_from zero n = []
show_from (suc f) n =
    let front = show_from f (n / 10) in
    if ltb n 10 then (b'0' + n) ∷ [] else front ++ ((b'0' + n % 10) ∷ [])

unfoldable pub show_number : ℤ → Bytes
unfolding show_from
show_number (pos n) = show_from (suc n) n
show_number (negsuc n) = b'-' ∷ show_from (suc (suc n)) (suc n)

-- Behind the opening bracket of an array, and the opening brace of an object.
unfoldable mutual
  pub print : Value → Bytes
  print null_value = codes "null"
  print (boolean true) = codes "true"
  print (boolean false) = codes "false"
  print (number n) = show_number n
  print (string s) = quoted s
  print (raw s) = s
  print (array xs) = b'[' ∷ print_items xs
  print (object fs) = b'{' ∷ print_fields fs

  pub print_items : Items → Bytes
  print_items no_items = b']' ∷ []
  print_items (item v no_items) = print v ++ (b']' ∷ [])
  print_items (item v (item w xs)) = print v ++ (b',' ∷ print_items (item w xs))

  pub print_fields : Fields → Bytes
  print_fields no_fields = b'}' ∷ []
  print_fields (field key v no_fields) = quoted key ++ (b':' ∷ (print v ++ (b'}' ∷ [])))
  print_fields (field key v (field l w fs)) =
      quoted key ++ (b':' ∷ (print v ++ (b',' ∷ print_fields (field l w fs))))

-- The ints but the least one, whose digits overflow the int that the reader puts the sign on.
abbrev pub InRange : ℤ → Type 0
InRange (pos n) = n ≤ int_max
InRange (negsuc n) = suc n ≤ int_max

-- The values that can be read: numbers in range, brackets at most `room` deep, and no raw text.
unfoldable mutual
  pub Readable : ℕ → Value → Type 0
  Readable room null_value = Unit
  Readable room (boolean b) = Unit
  Readable room (number n) = InRange n
  Readable room (string s) = Unit
  Readable room (raw s) = ⊥
  Readable zero (array xs) = ⊥
  Readable (suc room) (array xs) = AllItems room xs
  Readable zero (object fs) = ⊥
  Readable (suc room) (object fs) = AllFields room fs

  pub AllItems : ℕ → Items → Type 0
  AllItems room no_items = Unit
  AllItems room (item v xs) = Readable room v × AllItems room xs

  pub AllFields : ℕ → Fields → Type 0
  AllFields room no_fields = Unit
  AllFields room (field key v fs) = Readable room v × AllFields room fs
