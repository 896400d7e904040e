-- ===== src/Proto/Fields/ByNumber.antt =====
-- The `BTreeMap<u32, Vec<Field>>` that `decode_fields` fills, as an association list by key.
use rasp_api_gravity.Base.Bytes.{Bytes}
use rasp_api_gravity.Base.{
  ℕ, suc, ◌≤◌, ◌<◌, ◌≡◌, refl, List, [], ◌∷◌, ◌++◌, ltb, ◌==◌, if◌then◌else◌, arith,
}

pub data Field : Type 0 where
  varint : ℕ → Field
  bytes : Bytes → Field

abbrev pub FieldMap : Type 0
FieldMap = List (ℕ × List Field)

-- `out.entry(k).or_default().push(f)`
unfoldable pub push_field : ℕ → Field → FieldMap → FieldMap
push_field k f [] = (k, f ∷ []) ∷ []
push_field k f ((j, fs) ∷ m) =
    if k == j
    then (j, fs ++ (f ∷ [])) ∷ m
    else if ltb k j
    then (k, f ∷ []) ∷ (j, fs) ∷ m
    else (j, fs) ∷ push_field k f m

-- The fields under a key, none where the key is absent: `out.get(&k).into_iter().flatten()`.
unfoldable pub fields_of : ℕ → FieldMap → List Field
fields_of k [] = []
fields_of k ((j, fs) ∷ m) = if k == j then fs else fields_of k m

-- The keys ascend, from `lo` on.
abbrev pub Ascends : ℕ → FieldMap → Type 0
Ascends lo [] = Unit {0}
Ascends lo ((j, fs) ∷ m) = (lo ≤ j) × Ascends (suc j) m

pub push_field-Ascends :
    (lo k : ℕ) (f : Field) (m : FieldMap) → lo ≤ k → Ascends lo m → Ascends lo (push_field k f m)
unfolding push_field
push_field-Ascends lo k f [] h a = (h, tt)
push_field-Ascends lo k f ((j, fs) ∷ m) h a = ground (arith, push_field-Ascends (suc j) k f m)

fields_of_below : (lo k : ℕ) (m : FieldMap) → Ascends lo m → k < lo → fields_of k m ≡ []
unfolding fields_of
fields_of_below lo k [] a h = refl
fields_of_below lo k ((j, fs) ∷ m) a h = ground (arith, fields_of_below (suc j) k m)

pub fields_of-push_field :
    (lo k q : ℕ) (f : Field) (m : FieldMap)
    → Ascends lo m
    → fields_of q (push_field k f m) ≡ (if q == k then fields_of q m ++ (f ∷ []) else fields_of q m)
unfolding push_field fields_of
fields_of-push_field lo k q f [] a = ground arith
fields_of-push_field lo k q f ((j, fs) ∷ m) a =
    ground (arith, fields_of-push_field (suc j) k q f m, fields_of_below (suc j) q m)
