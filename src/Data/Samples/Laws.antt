-- ===== src/Data/Samples/Laws.antt =====
-- The documents satisfy what jsoncpp documents.
use module_flow.Prelude.{
  ℕ, zero, suc, ◌+◌, ◌≡◌, refl, true, ◌<◌, ◌≤◌, ◌==◌, nat_eq, list_eq, list_beq_iff, if◌then◌else◌,
  ◌⊎◌, ◌||◌, ◌&&◌, arith,
}
use module_flow.Data.Json.{Bytes, JsonLaws}
use module_flow.Data.Samples.{
  Doc, null_doc, int_doc, real_doc, text_doc, array_doc, object_doc, Items, no_items, item, Fields,
  no_fields, field, is_null_doc, is_array_doc, is_object_doc, count_items, count_fields, doc_size,
  has_field, field_at, put_field, item_at, put_item, resize_items, doc_has, doc_at_key, doc_at,
  doc_set_key, doc_set, documents,
}

count-resize_items : (n : ℕ) → count_items (resize_items no_items n) ≡ n
count-resize_items zero = refl
count-resize_items (suc n) = omega (arith, count-resize_items n)

count-put_item : (xs : Items) (i : ℕ) (x : Doc) → count_items (put_item xs i x) ≡ count_items xs
count-put_item no_items i x = refl
count-put_item (item y xs) zero x = refl
count-put_item (item y xs) (suc i) x = omega (arith, count-put_item xs i x)

at-put_item :
    (xs : Items) (i k : ℕ) (x : Doc)
    → i < count_items xs
    → item_at (put_item xs i x) k ≡ (if i == k then x else item_at xs k)
at-put_item no_items i k x h = absurd (omega arith)
at-put_item (item y xs) zero zero x h = refl
at-put_item (item y xs) zero (suc k) x h = ground arith
at-put_item (item y xs) (suc i) zero x h = ground arith
at-put_item (item y xs) (suc i) (suc k) x h = ground (arith, at-put_item xs i k x)

count-put_field :
    (fs : Fields) (k : Bytes) (x : Doc) → count_fields (put_field fs k x) ≤ count_fields fs + 1
count-put_field no_fields k x = omega arith
count-put_field (field l y fs) k x = ground (arith, count-put_field fs k x)

has-put_field :
    (fs : Fields) (k l : Bytes) (x : Doc)
    → has_field (put_field fs k x) l ≡ (k == l || has_field fs l)
has-put_field no_fields k l x = refl
has-put_field (field m y fs) k l x =
    ground (arith, has-put_field fs k l x, list_beq_iff m k, list_beq_iff m l, list_beq_iff k l)

at-put_field :
    (fs : Fields) (k l : Bytes) (x : Doc)
    → field_at (put_field fs k x) l ≡ (if k == l then x else field_at fs l)
at-put_field no_fields k l x = refl
at-put_field (field m y fs) k l x =
    ground (arith, at-put_field fs k l x, list_beq_iff m k, list_beq_iff m l, list_beq_iff k l)

array_only : (v : Doc) → is_array_doc v ≡ true → (xs : Items) × (v ≡ array_doc xs)
array_only (array_doc xs) e = (xs, refl)
array_only null_doc e = cc
array_only (int_doc n) e = cc
array_only (real_doc n) e = cc
array_only (text_doc n) e = cc
array_only (object_doc n) e = cc

-- A null value or an object.
abbrev Open : Doc → Type 0
Open v = (is_null_doc v ≡ true) ⊎ (is_object_doc v ≡ true)

set_key-object : (v x : Doc) (k : Bytes) → Open v → is_object_doc (doc_set_key v k x) ≡ true
set_key-object v x k h = ground arith

set_key-size : (v x : Doc) (k : Bytes) → Open v → doc_size (doc_set_key v k x) ≤ doc_size v + 1
set_key-size null_doc x k h = omega arith
set_key-size (object_doc fs) x k h = count-put_field fs k x
set_key-size (array_doc xs) x k h = absurd (ground arith)
set_key-size (int_doc n) x k h = omega arith
set_key-size (real_doc n) x k h = omega arith
set_key-size (text_doc n) x k h = omega arith

set_key-has :
    (v x : Doc) (k l : Bytes)
    → Open v
    → doc_has (doc_set_key v k x) l ≡ (k == l || (is_object_doc v && doc_has v l))
set_key-has (object_doc fs) x k l h = has-put_field fs k l x
set_key-has null_doc x k l h = refl
set_key-has (array_doc xs) x k l h = refl
set_key-has (int_doc n) x k l h = refl
set_key-has (real_doc n) x k l h = refl
set_key-has (text_doc n) x k l h = refl

set_key-at :
    (v x : Doc) (k l : Bytes)
    → Open v
    → doc_at_key (doc_set_key v k x) l ≡ (if k == l then x else doc_at_key v l)
set_key-at (object_doc fs) x k l h = at-put_field fs k l x
set_key-at null_doc x k l h = refl
set_key-at (array_doc xs) x k l h = refl
set_key-at (int_doc n) x k l h = refl
set_key-at (real_doc n) x k l h = refl
set_key-at (text_doc n) x k l h = refl

set-array :
    (v x : Doc) (i : ℕ)
    → is_array_doc v ≡ true
    → i < doc_size v
    → is_array_doc (doc_set v i x) ≡ true
set-array v x i a h = ground arith

set-size :
    (v x : Doc) (i : ℕ)
    → is_array_doc v ≡ true
    → i < doc_size v
    → doc_size (doc_set v i x) ≡ doc_size v
set-size (array_doc xs) x i a h = count-put_item xs i x
set-size null_doc x i a h = refl
set-size (object_doc fs) x i a h = refl
set-size (int_doc n) x i a h = refl
set-size (real_doc n) x i a h = refl
set-size (text_doc n) x i a h = refl

set-at :
    (v x : Doc) (i k : ℕ)
    → is_array_doc v ≡ true
    → i < doc_size v
    → doc_at (doc_set v i x) k ≡ (if i == k then x else doc_at v k)
set-at (array_doc xs) x i k a h = at-put_item xs i k x h
set-at null_doc x i k a h = cc
set-at (object_doc fs) x i k a h = cc
set-at (int_doc n) x i k a h = cc
set-at (real_doc n) x i k a h = cc
set-at (text_doc n) x i k a h = cc

pub documents-JsonLaws : JsonLaws documents
documents-JsonLaws = record {
  null_is_null = refl;
  null_no_object = refl;
  null_no_array = refl;
  resize_array = λ n. refl;
  resize_size = count-resize_items;
  empty_resize_array = λ n. refl;
  empty_resize_size = count-resize_items;
  set_array = set-array;
  set_size = set-size;
  set_at = set-at;
  null_size = refl;
  key_object = set_key-object;
  key_size = set_key-size;
  key_member = set_key-has;
  key_at = set_key-at;
  double_no_null = λ d. refl;
  double_converts = λ d. refl;
  double_reads = λ d. refl;
  int_no_null = λ n. refl;
  int_no_object = λ n. refl;
  int_converts = λ n. refl;
  int_reads = λ n. refl;
}
