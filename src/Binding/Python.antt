-- ===== src/Binding/Python.antt =====
-- crates/h11r-python/src/api: what the code asks of Python objects, and the exceptions it raises.
-- The Python runtime, as the `pyo3` crate shows it, is a parameter of what calls it.
use Prim.Native.String.{String}
use h11r.Prelude.{ℕ, Bool, true, false, ◌≡◌, Option, none, some, List, [], ◌∷◌, Bytes, Result, ok}
use h11r.Headers.{Headers}

-- A `PyErr`, by the class it is an instance of.
pub data PyErr : Type 0 where
  type_error value_error overflow_error attribute_error other : String → PyErr
  local_protocol_error : String → PyErr
  remote_protocol_error : String → Option ℕ → PyErr

-- `is_instance_of`
abbrev pub is_type_error : PyErr → Bool
is_type_error (type_error _) = true
is_type_error _ = false

abbrev pub is_attribute_error : PyErr → Bool
is_attribute_error (attribute_error _) = true
is_attribute_error _ = false

abbrev pub is_overflow_error : PyErr → Bool
is_overflow_error (overflow_error _) = true
is_overflow_error _ = false

abbrev pub PyResult : Type 0 → Type 0
PyResult A = Result PyErr A

-- A `str`: its UTF-8 bytes, which surrogates do not have, and those with the surrogates replaced.
pub record Text : Type 0 where
  pub to_str : PyResult Bytes
  pub to_string_lossy : Bytes

-- A `memoryview`: `tobytes()` and two attributes.
pub record View : Type 0 where
  pub tobytes : PyResult Bytes
  pub contiguous : PyResult Bool
  pub nbytes : PyResult ℕ

pub record Python : Type 1 where
  pub Object : Type 0
  -- `cast::<PyBytes>` with the bytes, and `cast_exact`
  pub cast_bytes : Object → Option Bytes
  pub cast_exact_bytes : Object → Option Bytes
  -- `cast::<PyString>`
  pub cast_text : Object → Option Text
  -- `PyUntypedBuffer::get`, `as_typed::<u8>` and `to_vec`
  pub get_buffer : Object → PyResult (Option (PyResult Bytes))
  -- `PyMemoryView::from`
  pub view : Object → PyResult View
  -- `getattr("nbytes")`, and `extract::<usize>` of what it is
  pub get_nbytes : Object → PyResult (PyResult ℕ)
  -- `extract::<u16>`
  pub extract_u16 : Object → PyResult ℕ
  -- `cast::<PyTuple>` with the items, and `cast_exact`
  pub cast_tuple : Object → Option (List Object)
  pub cast_exact_tuple : Object → Option (List Object)
  -- `cast::<PyHeaders>` with the fields
  pub cast_headers : Object → Option Headers
  -- `try_iter`, and what each step of the iterator returns
  pub try_iter : Object → PyResult (List (PyResult Object))
  -- `PyBytes::new` and `PyTuple::new`
  pub new_bytes : Bytes → Object
  pub new_tuple : List Object → Object

abbrev pub oks {ℓ κ} : {E : Type ℓ} {A : Type κ} → List A → List (Result E A)
oks [] = []
oks (x ∷ xs) = ok x ∷ oks xs

-- What the classes of Python document: an exact `bytes` or `tuple` is one, `bytes` is no `str`, `Headers` is
-- neither of them, and a tuple yields its items.
pub record IsLawful (py : Python) : Type 0 where
  pub exact_bytes :
      (x : py.Object) (b : Bytes) → py.cast_exact_bytes x ≡ some b → py.cast_bytes x ≡ some b
  pub bytes_no_text : (x : py.Object) (b : Bytes) → py.cast_bytes x ≡ some b → py.cast_text x ≡ none
  pub new_bytes_exact : (b : Bytes) → py.cast_exact_bytes (py.new_bytes b) ≡ some b
  pub new_tuple_exact : (xs : List py.Object) → py.cast_exact_tuple (py.new_tuple xs) ≡ some xs
  pub exact_tuple :
      (x : py.Object) (xs : List py.Object)
      → py.cast_exact_tuple x ≡ some xs
      → py.cast_tuple x ≡ some xs
  pub tuple_no_headers :
      (x : py.Object) (xs : List py.Object)
      → py.cast_exact_tuple x ≡ some xs
      → py.cast_headers x ≡ none
  pub tuple_iter :
      (x : py.Object) (xs : List py.Object)
      → py.cast_exact_tuple x ≡ some xs
      → py.try_iter x ≡ ok (oks xs)
