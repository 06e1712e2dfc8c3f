-- ===== src/Json/RoundTrip.antt =====
-- What the printer prints, the reader of xiaobaios/apps/pkg_cjson_min.c reads back.
use xiaobai_os.Base.{
  ℕ, zero, suc, ◌+◌, ◌*◌, ◌≤◌, ◌<◌, ◌≡◌, refl, arith, Bool, true, false, [], ◌∷◌, ◌++◌, append-nil,
  append_assoc, Bytes, length, length-append,
}
use xiaobai_os.Json.Result.{ok}
use xiaobai_os.Json.Value.{
  Value, Items, Fields, null_value, boolean, number, string, raw, array, object, no_items, item,
  no_fields, field,
}
use xiaobai_os.Json.Text.{skip_ws}
use xiaobai_os.Json.Parse.{parse_value, parse_items, parse_fields, parse_with_length}
use xiaobai_os.Json.Print.{
  escaped, quoted, print, print_items, print_fields, Readable, AllItems, AllFields,
}
use xiaobai_os.Json.Print.Numbers.{Stops}
use xiaobai_os.Json.Print.Heads.{print_head, skip_ws-print, parse_value-number}
use xiaobai_os.Json.Print.Steps.{
  array_step, object_step, item_last, item_more, field_last, field_more, parse_key-quoted,
  parse_value-quoted, empty_array, empty_object, skip_ws-items, stands-items, word_reads,
  skip_ws-fields, stands-fields,
}

mutual
  unfolding print Readable

  value_reads :
      (v : Value) (limit room depth f : ℕ) (rest : Bytes)
      → Readable room v
      → room + depth ≤ limit
      → Stops rest
      → 2 * length (print v) < f
      → parse_value limit f depth (print v ++ rest) ≡ ok (v, rest)
  value_reads v limit room depth zero rest h le s lt = absurd (omega arith)
  value_reads null_value limit room depth (suc f) rest h le s lt = (word_reads limit f depth rest).0
  value_reads (boolean true) limit room depth (suc f) rest h le s lt =
      (word_reads limit f depth rest).1
  value_reads (boolean false) limit room depth (suc f) rest h le s lt =
      (word_reads limit f depth rest).2
  value_reads (number n) limit room depth (suc f) rest h le s lt =
      parse_value-number limit f depth n rest h s
  value_reads (string t) limit room depth (suc f) rest h le s lt =
      parse_value-quoted limit f depth t rest
  value_reads (raw t) limit room depth (suc f) rest h le s lt = absurd h
  value_reads (array xs) limit zero depth (suc f) rest h le s lt = absurd h
  value_reads (object fs) limit zero depth (suc f) rest h le s lt = absurd h
  value_reads (array no_items) limit (suc room) depth (suc f) rest h le s lt =
      empty_array limit f depth rest (omega arith)
  value_reads (object no_fields) limit (suc room) depth (suc f) rest h le s lt =
      empty_object limit f depth rest (omega arith)
  value_reads (array (item v xs)) limit (suc room) depth (suc f) rest h le s lt =
      array_step limit f depth (print_items (item v xs) ++ rest) rest (item v xs) (omega arith)
        (skip_ws-items room v xs rest h.0) (stands-items room v xs rest h.0)
        (items_read v xs limit room (depth + 1) f rest h (omega arith) (omega arith))
  value_reads (object (field key v fs)) limit (suc room) depth (suc f) rest h le s lt =
      object_step limit f depth (print_fields (field key v fs) ++ rest) rest (field key v fs)
        (omega arith) (skip_ws-fields key v fs rest) (stands-fields key v fs rest)
        (fields_read key v fs limit room (depth + 1) f rest h (omega arith) (omega arith))

  items_read :
      (v : Value) (xs : Items) (limit room depth f : ℕ) (rest : Bytes)
      → AllItems room (item v xs)
      → room + depth ≤ limit
      → suc (2 * length (print_items (item v xs))) < f
      → parse_items limit f depth (print_items (item v xs) ++ rest) ≡ ok (item v xs, rest)
  items_read v xs limit room depth zero rest h le lt = absurd (omega arith)
  items_read v no_items limit room depth (suc f) rest h le lt =
      let len = length-append (print v) (b']' ∷ []) in
      let read = value_reads v limit room depth f (b']' ∷ rest) h.0 le refl (omega arith) in
      let (c, t, e, good) = print_head room v h.0 in
      let skip = skip_ws-print room v (b']' ∷ rest) h.0 in
      rw (append_assoc (print v) (b']' ∷ []) rest, e)
        (item_last limit f depth c (t ++ (b']' ∷ rest)) rest v (rw e at skip) (rw e at read))
  items_read v (item w xs) limit room depth (suc f) rest h le lt =
      let len = length-append (print v) (b',' ∷ print_items (item w xs)) in
      let behind = print_items (item w xs) ++ rest in
      let read = value_reads v limit room depth f (b',' ∷ behind) h.0 le refl (omega arith) in
      let more = items_read w xs limit room depth f rest h.1 le (omega arith) in
      let (c, t, e, good) = print_head room v h.0 in
      let skip = skip_ws-print room v (b',' ∷ behind) h.0 in
      rw (append_assoc (print v) (b',' ∷ print_items (item w xs)) rest, e)
        (item_more limit f depth c (t ++ (b',' ∷ behind)) behind rest v (item w xs) (rw e at skip)
          (rw e at read) more)

  fields_read :
      (key : Bytes) (v : Value) (fs : Fields) (limit room depth f : ℕ) (rest : Bytes)
      → AllFields room (field key v fs)
      → room + depth ≤ limit
      → suc (2 * length (print_fields (field key v fs))) < f
      → parse_fields limit f depth (print_fields (field key v fs) ++ rest)
        ≡ ok (field key v fs, rest)
  fields_read key v fs limit room depth zero rest h le lt = absurd (omega arith)
  fields_read key v no_fields limit room depth (suc f) rest h le lt =
      let len = length-append (print v) (b'}' ∷ []) in
      let len' = length-append (quoted key) (b':' ∷ (print v ++ (b'}' ∷ []))) in
      let read = value_reads v limit room depth f (b'}' ∷ rest) h.0 le refl (omega arith) in
      rw
        (
          append_assoc (escaped key ++ (b'"' ∷ [])) (b':' ∷ (print v ++ (b'}' ∷ []))) rest,
          append_assoc (print v) (b'}' ∷ []) rest,
        )
        (field_last limit f depth b'"' _ (print v ++ (b'}' ∷ rest)) rest key v
          (parse_key-quoted key _) (skip_ws-print room v (b'}' ∷ rest) h.0) read)
  fields_read key v (field l w fs) limit room depth (suc f) rest h le lt =
      let next = print_fields (field l w fs) in
      let len = length-append (print v) (b',' ∷ next) in
      let len' = length-append (quoted key) (b':' ∷ (print v ++ (b',' ∷ next))) in
      let read =
        value_reads v limit room depth f (b',' ∷ (next ++ rest)) h.0 le refl (omega arith) in
      let more = fields_read l w fs limit room depth f rest h.1 le (omega arith) in
      rw
        (
          append_assoc (escaped key ++ (b'"' ∷ [])) (b':' ∷ (print v ++ (b',' ∷ next))) rest,
          append_assoc (print v) (b',' ∷ next) rest,
        )
        (field_more limit f depth b'"' _ (print v ++ (b',' ∷ (next ++ rest))) (next ++ rest) rest
          key v (field l w fs) (parse_key-quoted key _)
          (skip_ws-print room v (b',' ∷ (next ++ rest)) h.0) read more)

-- A printed value reads back with nothing left, when its numbers lie between -(2 ^ 31 - 1) and 2 ^ 31 - 1,
-- it holds no raw text, and its brackets are nested no deeper than the limit.
pub parse-print :
    (limit : ℕ) (required : Bool) (v : Value)
    → Readable limit v
    → parse_with_length limit required (print v) ≡ ok (v, [])
unfolding parse_with_length skip_ws
parse-print limit required v h =
    let whole =
      value_reads v limit limit 0 (2 * length (print v) + 1) [] h (omega arith) tt (omega arith) in
    let read = rw append-nil at whole in rw read refl
