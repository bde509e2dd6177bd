-- ===== src/Binding/Extract.antt =====
-- crates/h11r-python/src/api/headers.rs and events.rs: what is read from Python is what was written to it.
use h11r.Prelude.{
  ◌≡◌, refl, sym, ◌∙◌, Option, none, some, List, [], ◌∷◌, ◌++◌, Bytes, Result, ok, err, on_ok,
}
use h11r.Headers
use h11r.Headers.{Headers, Field, push, extend, iter}
use h11r.Headers.Entries.{new-IsWellFormed, iter-extend}
use h11r.Binding.Python.{Python, IsLawful, oks}
use h11r.Binding.Buffers.{with_buffer, with_text_or_buffer}
use h11r.Binding.Fields.{
  py_headers, push_slow, push_named, push_pair, push_pairs, push_iterated, extract_headers,
}

module _ (py : Python) (lawful : IsLawful py) where
  -- An exact `bytes` is read as its bytes.
  pub text_or_buffer-bytes :
      {R : Type 0} (x : py.Object) (bytes : Bytes) (consume : Bytes → R)
      → py.cast_exact_bytes x ≡ some bytes
      → with_text_or_buffer py x consume ≡ ok (consume bytes)
  unfolding with_text_or_buffer with_buffer
  text_or_buffer-bytes x bytes consume h =
      let is_bytes = lawful.exact_bytes x bytes h in
      rw (with_text_or_buffer, lawful.bytes_no_text x bytes is_bytes, with_buffer, is_bytes) refl

  push_named-bytes :
      (headers : Headers) (name value : py.Object) (n v : Bytes)
      → py.cast_exact_bytes name ≡ some n
      → py.cast_exact_bytes value ≡ some v
      → push_slow py headers name value ≡ ok (push headers n v)
  unfolding push_slow
  push_named-bytes headers name value n v h k =
      rw (text_or_buffer-bytes name n (λ b. b) h) (text_or_buffer-bytes value v _ k)

  -- The shortcut for two exact `bytes` gives what the text and buffer checks would give.
  push_named-slow :
      (headers : Headers) (name value : py.Object)
      → push_named py headers name value ≡ push_slow py headers name value
  unfolding push_named
  push_named-slow headers name value =
      by_kind (py.cast_exact_bytes name) (py.cast_exact_bytes value) refl refl
    where
      by_kind :
          (n v : Option Bytes)
          → py.cast_exact_bytes name ≡ n
          → py.cast_exact_bytes value ≡ v
          → push_named py headers name value ≡ push_slow py headers name value
      by_kind none v h k = rw (push_named, h) refl
      by_kind (some n) none h k = rw (push_named, h, k) refl
      by_kind (some n) (some v) h k =
          rw (push_named, h, k) (sym (push_named-bytes headers name value n v h k))

on_ok-agree :
    {E A B : Type 0} (r : Result E A) (f g : A → Result E B)
    → ((a : A) → f a ≡ g a)
    → on_ok r f ≡ on_ok r g
on_ok-agree (ok a) f g h = h a
on_ok-agree (err e) f g h = refl

-- The loop over a tuple does what the loop over its iterator does.
push_pairs-iterated :
    (py : Python) (headers : Headers) (pairs : List py.Object)
    → push_pairs py headers pairs ≡ push_iterated py headers (oks pairs)
unfolding push_pairs push_iterated
push_pairs-iterated py headers [] = refl
push_pairs-iterated py headers (pair ∷ rest) =
    on_ok-agree (push_pair py headers pair) _ _ (λ pushed. push_pairs-iterated py pushed rest)

exact_tuple_read :
    (py : Python) (value : py.Object) (pairs : List py.Object)
    → py.cast_headers value ≡ none
    → py.cast_exact_tuple value ≡ some pairs
    → extract_headers py (some value) ≡ push_pairs py Headers.new pairs
unfolding extract_headers push_pairs
exact_tuple_read py value pairs no_headers exact = rw (extract_headers, no_headers, exact) refl

iter-new : (fields : List Field) → iter Headers.new ++ fields ≡ fields
unfolding iter Headers.new
iter-new fields = refl

abbrev pub pair_of : (py : Python) → Field → py.Object
pair_of py (name, value) = py.new_tuple (py.new_bytes name ∷ (py.new_bytes value ∷ []))

abbrev pub pairs_of : (py : Python) → List Field → List py.Object
pairs_of py [] = []
pairs_of py (field ∷ rest) = pair_of py field ∷ pairs_of py rest

module _ (py : Python) (lawful : IsLawful py) where
  push_pair-pair_of :
      (headers : Headers) (name value : Bytes)
      → push_pair py headers (pair_of py (name, value)) ≡ ok (push headers name value)
  unfolding push_pair
  push_pair-pair_of headers name value =
      rw
        (
          push_pair,
          lawful.exact_tuple (pair_of py (name, value)) (two name value)
              (lawful.new_tuple_exact (two name value)),
        )
        (push_named-slow py lawful headers (py.new_bytes name) (py.new_bytes value)
          ∙ push_named-bytes py lawful headers (py.new_bytes name) (py.new_bytes value) name value
              (lawful.new_bytes_exact name) (lawful.new_bytes_exact value))
    where
      two : Bytes → Bytes → List py.Object
      two n v = py.new_bytes n ∷ (py.new_bytes v ∷ [])

  push_pairs-extend :
      (headers : Headers) (fields : List Field)
      → push_pairs py headers (pairs_of py fields) ≡ ok (extend headers fields)
  unfolding push_pairs extend
  push_pairs-extend headers [] = refl
  push_pairs-extend headers ((name, value) ∷ rest) =
      rw (push_pair-pair_of headers name value) (push_pairs-extend (push headers name value) rest)

  tuple_read :
      (pairs : List py.Object)
      → extract_headers py (some (py.new_tuple pairs)) ≡ push_pairs py Headers.new pairs
  tuple_read pairs =
      exact_tuple_read py (py.new_tuple pairs) pairs
        (lawful.tuple_no_headers (py.new_tuple pairs) pairs (lawful.new_tuple_exact pairs))
        (lawful.new_tuple_exact pairs)

  -- The fields of a message, written as the tuple of pairs of `bytes` that Python sees, are read back as the
  -- same fields in the same order, each as often as it stood there.
  pub extract_headers-py_headers :
      (headers : Headers)
      → (read : Headers) × ((extract_headers py
              (some (py.new_tuple (pairs_of py (py_headers headers))))
            ≡ ok read)
          × (iter read ≡ iter headers))
  unfolding py_headers
  extract_headers-py_headers headers = (
    extend Headers.new (iter headers),
    (
      tuple_read (pairs_of py (iter headers)) ∙ push_pairs-extend Headers.new (iter headers),
      (iter-extend Headers.new (iter headers) new-IsWellFormed).0 ∙ iter-new (iter headers),
    ),
  )

  -- A tuple that is read in place gives what its iterator would give, errors included.
  pub extract_headers-iterated :
      (value : py.Object) (pairs : List py.Object)
      → py.cast_exact_tuple value ≡ some pairs
      → extract_headers py (some value)
        ≡ on_ok (py.try_iter value) (λ steps. push_iterated py Headers.new steps)
  extract_headers-iterated value pairs h = rw (lawful.tuple_iter value pairs h) (
      exact_tuple_read py value pairs (lawful.tuple_no_headers value pairs h) h
      ∙ push_pairs-iterated py Headers.new pairs)
