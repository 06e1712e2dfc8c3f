-- ===== src/Tests/Json.antt =====
-- The JSON reader on a text of a few items.
use xiaobai_os.Base.{
  ◌+◌, ◌≤◌, ◌≢◌, arith, length, ◌≡◌, refl, Bytes, true, [], ◌∷◌, codes, pos, negsuc,
}
use xiaobai_os.Json.Value.{
  Value, null_value, number, string, array, object, no_items, item, no_fields, field,
}
use xiaobai_os.Json.Result.{ok, failed, overflowed, out_of_fuel}
use xiaobai_os.Json.Text.{skip_ws, parse_string}
use xiaobai_os.Json.Number.{parse_number}
use xiaobai_os.Json.Parse.{parse_value, parse_key, parse_scalar, stands, after, parse_with_length}
use xiaobai_os.Json.Print.{Readable, print, escaped, show_number}
use xiaobai_os.Json.RoundTrip.{parse-print}
use xiaobai_os.Json.Bounds.{nesting, parse_terminates, nesting_le}
use xiaobai_os.Json.Bounds.Strings.{parse_string_fits}

abbrev sample : Value
sample = object (
    field (codes "a") (number (negsuc 11)) (
      field (codes "b") (array (item (string (65 ∷ 10 ∷ 34 ∷ [])) (item null_value no_items)))
        no_fields))

print_runs : print sample ≡ codes "{\"a\":-12,\"b\":[\"A\\u000a\\\"\",null]}"
unfolding print escaped show_number
print_runs = refl

parse_runs :
    parse_with_length 1000 true (codes " {\"a\" : -12.5e3, \"b\":[\"\\u0041\\n\\\"\" , null] } ")
    ≡ ok (sample, [])
unfolding parse_with_length parse_value parse_key parse_scalar stands after skip_ws parse_string
    parse_number
parse_runs = refl

parse_overflows : parse_with_length 1000 true (codes "2147483648") ≡ overflowed
unfolding parse_with_length parse_value parse_scalar stands skip_ws parse_number
parse_overflows = refl

-- The last digits are dropped.
parse_drops : parse_with_length 1000 true (codes "3000000000") ≡ ok (number (pos 300000000), [])
unfolding parse_with_length parse_value parse_scalar stands skip_ws parse_number
parse_drops = refl

parse_too_deep : parse_with_length 2 true (codes "[[[]]]") ≡ failed (codes "[]]]")
unfolding parse_with_length parse_value stands after skip_ws
parse_too_deep = refl

sample-Readable : Readable 2 sample
unfolding Readable
sample-Readable = (omega arith, ((tt, (tt, tt)), tt))

parse-print_example : parse_with_length 2 true (print sample) ≡ ok (sample, [])
parse-print_example = parse-print 2 true sample sample-Readable

parse_terminates_example : parse_with_length 2 true (codes "[[[]]]") ≢ out_of_fuel
parse_terminates_example = parse_terminates 2 true (codes "[[[]]]")

nesting_le_example : nesting sample ≤ 1000
nesting_le_example =
    nesting_le 1000 true (codes " {\"a\" : -12.5e3, \"b\":[\"\\u0041\\n\\\"\" , null] } ")
      parse_runs

abbrev read_text : Bytes
read_text = 97 ∷ 195 ∷ 169 ∷ 10 ∷ []

string_runs : parse_string (codes "\"a\\u00e9\\n\", 1") ≡ ok (read_text, codes ", 1")
unfolding parse_string
string_runs = refl

parse_string_fits_example : length read_text + 1 ≤ length (codes "\"a\\u00e9\\n\", 1")
parse_string_fits_example =
    parse_string_fits (codes "\"a\\u00e9\\n\", 1") read_text (codes ", 1") string_runs
