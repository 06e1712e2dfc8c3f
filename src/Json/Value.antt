-- ===== src/Json/Value.antt =====
-- The items of xiaobaios/apps/pkg_cjson_min.c. The children of an item are the list that `child` and `next`
-- make, and the key of an object's child is its `string`. A text is its bytes before the final NUL.
use xiaobai_os.Base.{Bool, Bytes, ℤ}

mutual
  -- `cJSON` by its type. (`valuedouble` is 0 in every item.)
  pub data Value : Type 0 where
    null_value : Value
    boolean : Bool → Value
    number : ℤ → Value
    string : Bytes → Value
    raw : Bytes → Value
    array : Items → Value
    object : Fields → Value

  pub data Items : Type 0 where
    no_items : Items
    item : Value → Items → Items

  pub data Fields : Type 0 where
    no_fields : Fields
    field : Bytes → Value → Fields → Fields
