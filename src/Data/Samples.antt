-- ===== src/Data/Samples.antt =====
-- A small JSON library, of documents as trees, for the examples.
pub mod Laws
use module_flow.Prelude.{
  ℕ, zero, suc, ◌+◌, ◌≡◌, refl, Bool, true, false, List, [], ◌∷◌, ◌<◌, ◌≤◌, ◌==◌, nat_eq, list_eq,
  nat_beq_iff, list_beq_iff, if◌then◌else◌, ℤ, pos, negsuc, ◌⊎◌, inl, inr, ◌||◌, ◌&&◌, arith,
  Bool-cases, beq_self, ◌↔◌,
}
use module_flow.Data.Json.{
  Bytes, ValueType, int_value, uint_value, real_value, string_value, boolean_value, JsonLibrary,
  JsonLaws,
}

mutual
  pub data Doc : Type 0 where
    null_doc : Doc
    int_doc : ℤ → Doc
    real_doc : ℕ → Doc
    text_doc : Bytes → Doc
    array_doc : Items → Doc
    object_doc : Fields → Doc

  pub data Items : Type 0 where
    no_items : Items
    item : Doc → Items → Items

  pub data Fields : Type 0 where
    no_fields : Fields
    field : Bytes → Doc → Fields → Fields

abbrev pub is_null_doc : Doc → Bool
is_null_doc null_doc = true
is_null_doc _ = false

abbrev pub is_array_doc : Doc → Bool
is_array_doc (array_doc xs) = true
is_array_doc _ = false

abbrev pub is_object_doc : Doc → Bool
is_object_doc (object_doc fs) = true
is_object_doc _ = false

abbrev pub count_items : Items → ℕ
count_items no_items = 0
count_items (item x xs) = suc (count_items xs)

abbrev pub count_fields : Fields → ℕ
count_fields no_fields = 0
count_fields (field k x fs) = suc (count_fields fs)

abbrev pub doc_size : Doc → ℕ
doc_size (array_doc xs) = count_items xs
doc_size (object_doc fs) = count_fields fs
doc_size _ = 0

abbrev pub has_field : Fields → Bytes → Bool
has_field no_fields k = false
has_field (field l x fs) k = l == k || has_field fs k

abbrev pub field_at : Fields → Bytes → Doc
field_at no_fields k = null_doc
field_at (field l x fs) k = if l == k then x else field_at fs k

abbrev pub put_field : Fields → Bytes → Doc → Fields
put_field no_fields k x = field k x no_fields
put_field (field l y fs) k x = if l == k then field l x fs else field l y (put_field fs k x)

abbrev pub item_at : Items → ℕ → Doc
item_at no_items i = null_doc
item_at (item x xs) zero = x
item_at (item x xs) (suc i) = item_at xs i

abbrev pub put_item : Items → ℕ → Doc → Items
put_item no_items i x = no_items
put_item (item y xs) zero x = item x xs
put_item (item y xs) (suc i) x = item y (put_item xs i x)

abbrev pub resize_items : Items → ℕ → Items
resize_items xs zero = no_items
resize_items no_items (suc n) = item null_doc (resize_items no_items n)
resize_items (item x xs) (suc n) = item x (resize_items xs n)

abbrev resize_doc : Doc → ℕ → Doc
resize_doc (array_doc xs) n = array_doc (resize_items xs n)
resize_doc _ n = array_doc (resize_items no_items n)

abbrev names : Fields → List Bytes
names no_fields = []
names (field k x fs) = k ∷ names fs

abbrev doc_names : Doc → List Bytes
doc_names (object_doc fs) = names fs
doc_names _ = []

abbrev pub doc_has : Doc → Bytes → Bool
doc_has (object_doc fs) k = has_field fs k
doc_has _ k = false

abbrev pub doc_at_key : Doc → Bytes → Doc
doc_at_key (object_doc fs) k = field_at fs k
doc_at_key _ k = null_doc

abbrev pub doc_at : Doc → ℕ → Doc
doc_at (array_doc xs) i = item_at xs i
doc_at _ i = null_doc

abbrev pub doc_set_key : Doc → Bytes → Doc → Doc
doc_set_key (object_doc fs) k x = object_doc (put_field fs k x)
doc_set_key _ k x = object_doc (field k x no_fields)

abbrev pub doc_set : Doc → ℕ → Doc → Doc
doc_set (array_doc xs) i x = array_doc (put_item xs i x)
doc_set v i x = v

abbrev pub converts : Doc → ValueType → Bool
converts (int_doc n) string_value = false
converts (int_doc n) _ = true
converts (real_doc n) string_value = false
converts (real_doc n) _ = true
converts (text_doc s) string_value = true
converts _ _ = false

abbrev doc_int : Doc → ℤ
doc_int (int_doc n) = n
doc_int _ = pos 0

abbrev doc_real : Doc → ℕ
doc_real (real_doc n) = n
doc_real _ = 0

abbrev doc_text : Doc → Bytes
doc_text (text_doc s) = s
doc_text _ = []

abbrev pub documents : JsonLibrary
documents = record {
  Value = Doc;
  Double = ℕ;
  null_value = null_doc;
  is_null = is_null_doc;
  is_array = is_array_doc;
  is_object = is_object_doc;
  size = doc_size;
  is_member = doc_has;
  member_names = doc_names;
  at_index = doc_at;
  at_key = doc_at_key;
  is_convertible_to = converts;
  as_bool = λ v. false;
  as_int = doc_int;
  as_uint = doc_real;
  as_double = doc_real;
  as_string = doc_text;
  as_largest_int = doc_int;
  as_largest_uint = doc_real;
  of_int = int_doc;
  of_double = real_doc;
  resize = resize_doc;
  set_index = doc_set;
  set_key = doc_set_key;
  zero_double = 0;
  empty_array = array_doc no_items;
}
