-- ===== src/Tests/Runtime.antt =====
-- A small Python runtime: `bytes`, `str`, `int`, tuples and `Headers` objects.
use h11r.Prelude.{ℕ, ◌≡◌, refl, ap, true, Option, none, some, List, [], ◌∷◌, Bytes, length, ok, err}
use h11r.Headers.{Headers}
use h11r.Binding.Python.{PyErr, PyResult, Text, View, Python, IsLawful, oks}

mutual
  pub data Object : Type 0 where
    bytes text : Bytes → Object
    int : ℕ → Object
    fields : Headers → Object
    tuple : Items → Object

  pub data Items : Type 0 where
    nil : Items
    cons : Object → Items → Items

abbrev to_list : Items → List Object
to_list nil = []
to_list (cons x xs) = x ∷ to_list xs

abbrev from_list : List Object → Items
from_list [] = nil
from_list (x ∷ xs) = cons x (from_list xs)

to_list-from_list : (xs : List Object) → to_list (from_list xs) ≡ xs
to_list-from_list [] = refl
to_list-from_list (x ∷ xs) = ap (◌∷◌ x) (to_list-from_list xs)

abbrev as_bytes : Object → Option Bytes
as_bytes (bytes b) = some b
as_bytes _ = none

abbrev as_text : Object → Option Text
as_text (text b) = some (record { to_str = ok b; to_string_lossy = b })
as_text _ = none

abbrev as_tuple : Object → Option (List Object)
as_tuple (tuple xs) = some (to_list xs)
as_tuple _ = none

abbrev as_headers : Object → Option Headers
as_headers (fields h) = some h
as_headers _ = none

abbrev no_buffer : PyErr
no_buffer = PyErr.type_error "a bytes-like object is required"

abbrev as_view : Object → PyResult View
as_view (bytes b) = ok (record { tobytes = ok b; contiguous = ok true; nbytes = ok (length b) })
as_view _ = err no_buffer

abbrev as_buffer : Object → PyResult (Option (PyResult Bytes))
as_buffer (bytes b) = ok (some (ok b))
as_buffer _ = err no_buffer

abbrev as_u16 : Object → PyResult ℕ
as_u16 (int n) = ok n
as_u16 _ = err (PyErr.type_error "an integer is required")

abbrev iterate : Object → PyResult (List (PyResult Object))
iterate (tuple xs) = ok (oks (to_list xs))
iterate _ = err (PyErr.type_error "not iterable")

abbrev pub runtime : Python
runtime = record {
  Object = Object;
  cast_bytes = as_bytes;
  cast_exact_bytes = as_bytes;
  cast_text = as_text;
  get_buffer = as_buffer;
  view = as_view;
  get_nbytes = λ _. err (PyErr.attribute_error "nbytes");
  extract_u16 = as_u16;
  cast_tuple = as_tuple;
  cast_exact_tuple = as_tuple;
  cast_headers = as_headers;
  try_iter = iterate;
  new_bytes = bytes;
  new_tuple = λ xs. tuple (from_list xs);
}

bytes-no_text : (x : Object) (b : Bytes) → as_bytes x ≡ some b → as_text x ≡ none
bytes-no_text (bytes a) b h = refl
bytes-no_text (text a) b h = absurd (cc)
bytes-no_text (int n) b h = refl
bytes-no_text (fields f) b h = refl
bytes-no_text (tuple xs) b h = refl

tuple-no_headers : (x : Object) (xs : List Object) → as_tuple x ≡ some xs → as_headers x ≡ none
tuple-no_headers (bytes a) xs h = refl
tuple-no_headers (text a) xs h = refl
tuple-no_headers (int n) xs h = refl
tuple-no_headers (fields f) xs h = absurd (cc)
tuple-no_headers (tuple ys) xs h = refl

tuple-iterate : (x : Object) (xs : List Object) → as_tuple x ≡ some xs → iterate x ≡ ok (oks xs)
tuple-iterate (bytes a) xs h = absurd (cc)
tuple-iterate (text a) xs h = absurd (cc)
tuple-iterate (int n) xs h = absurd (cc)
tuple-iterate (fields f) xs h = absurd (cc)
tuple-iterate (tuple ys) xs h = let same : to_list ys ≡ xs = cc in ap (λ l. ok (oks l)) same

pub runtime-IsLawful : IsLawful runtime
runtime-IsLawful = record {
  exact_bytes = λ x b h. h;
  bytes_no_text = bytes-no_text;
  new_bytes_exact = λ b. refl;
  new_tuple_exact = λ xs. ap some (to_list-from_list xs);
  exact_tuple = λ x xs h. h;
  tuple_no_headers = tuple-no_headers;
  tuple_iter = tuple-iterate;
}
