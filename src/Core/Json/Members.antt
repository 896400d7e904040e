-- ===== src/Core/Json/Members.antt =====
-- The members of a JSON object after an insertion.
use rasp_api_gravity.Base.Bytes.{Text, text_eq, text_eq_refl, text_eq_iff}
use rasp_api_gravity.Base.{◌≡◌, refl, false, some, arith}
use rasp_api_gravity.Core.Json.{Value, Fields, end, field, get_field, insert_field}

pub get_field-insert_field_ne :
    (j k : Text) (x : Value) (fs : Fields)
    → text_eq j k ≡ false
    → get_field k (insert_field j x fs) ≡ get_field k fs
unfolding get_field insert_field
get_field-insert_field_ne j k x end h = rw h refl
get_field-insert_field_ne j k x (field i v fs) h =
    ground (arith, h, text_eq_iff i j, get_field-insert_field_ne j k x fs)

pub get_field-insert_field_self :
    (k : Text) (x : Value) (fs : Fields) → get_field k (insert_field k x fs) ≡ some x
unfolding get_field insert_field
get_field-insert_field_self k x end = rw (text_eq_refl k) refl
get_field-insert_field_self k x (field i v fs) =
    ground (arith, text_eq_refl k, get_field-insert_field_self k x fs)
