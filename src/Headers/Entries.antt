-- ===== src/Headers/Entries.antt =====
-- crates/h11r/src/headers.rs: the section as the list of its fields.
use h11r.Prelude.{
  ◌-◌, ◌≤◌, ◌≡◌, refl, ap, sym, ◌∙◌, arith, inl, inr, Bool, true, ◌&&◌, List, [], ◌∷◌, ◌++◌,
  append-nil, append_assoc, Bytes, length, take, drop, all, if◌then◌else◌, Bool-cases,
  length-append, length-drop, take-append_le, drop-append_le, drop_append,
}
use h11r.Wire.Syntax.{valid_name, valid_value}
use h11r.Headers.{
  Range, range, slice, Field, Headers, new, from_section, field_valid, push, iter_from, iter,
  is_valid, retain_ranges, retain, extend,
}

abbrev Inside : Bytes → Range → Type 0
Inside bytes r = (r.start ≤ r.end) × (r.end ≤ length bytes)

abbrev pub AllInside : Bytes → List (Range × Range) → Type 0
AllInside bytes [] = Unit
AllInside bytes ((name, value) ∷ rest) =
    (Inside bytes name × Inside bytes value) × AllInside bytes rest

-- Every range lies in the buffer, and the flag is set only if every field is valid.
pub record IsWellFormed (h : Headers) : Type 0 where
  pub inside : AllInside h.bytes h.fields
  pub flag_sound : h.is_known_valid ≡ true → all field_valid (iter h) ≡ true

slice-append :
    (bytes more : Bytes) (r : Range) → Inside bytes r → slice (bytes ++ more) r ≡ slice bytes r
slice-append bytes more r h =
    ap (take (r.end - r.start)) (drop-append_le r.start bytes more (omega arith))
    ∙ take-append_le (r.end - r.start) (drop r.start bytes) more
        (omega (arith, length-drop r.start bytes))

-- The bytes appended last, and those before them.
slice_last :
    (bytes added : Bytes)
    → slice (bytes ++ added) (range (length bytes) (length (bytes ++ added))) ≡ added
slice_last bytes added =
    let size : length (bytes ++ added) - length bytes ≡ length added =
      omega (arith, length-append bytes added) in
    rw (size, drop_append bytes added) (take_all added)
  where
    take_all : (xs : Bytes) → take (length xs) xs ≡ xs
    take_all [] = refl
    take_all (x ∷ xs) = ap (◌∷◌ x) (take_all xs)

iter_from-more :
    (bytes more : Bytes) (fields : List (Range × Range))
    → AllInside bytes fields
    → iter_from (bytes ++ more) fields ≡ iter_from bytes fields
unfolding iter_from
iter_from-more bytes more [] h = refl
iter_from-more bytes more ((name, value) ∷ rest) h = rw (
  slice-append bytes more name h.0.0,
  slice-append bytes more value h.0.1,
  iter_from-more bytes more rest h.1,
)

iter_from-concat :
    (bytes : Bytes) (fields : List (Range × Range)) (name value : Range)
    → iter_from bytes (fields ++ (name, value) ∷ [])
      ≡ iter_from bytes fields ++ (slice bytes name, slice bytes value) ∷ []
unfolding iter_from
iter_from-concat bytes [] name value = refl
iter_from-concat bytes ((n, v) ∷ fields) name value =
    ap (◌∷◌ (slice bytes n, slice bytes v)) (iter_from-concat bytes fields name value)

AllInside-more :
    (bytes more : Bytes) (fields : List (Range × Range))
    → AllInside bytes fields
    → AllInside (bytes ++ more) fields
AllInside-more bytes more [] h = tt
AllInside-more bytes more (f ∷ fields) h =
    (omega (arith, length-append bytes more), AllInside-more bytes more fields h.1)

AllInside-concat :
    (bytes : Bytes) (fields : List (Range × Range)) (name value : Range)
    → AllInside bytes fields
    → Inside bytes name
    → Inside bytes value
    → AllInside bytes (fields ++ (name, value) ∷ [])
AllInside-concat bytes [] name value h i j = ((i, j), tt)
AllInside-concat bytes (f ∷ fields) name value h i j =
    (h.0, AllInside-concat bytes fields name value h.1 i j)

-- On a well-formed section `push` appends the field to the list of fields, and changes none of them.
pub iter-push :
    (h : Headers) (name value : Bytes)
    → IsWellFormed h
    → iter (push h name value) ≡ iter h ++ (name, value) ∷ []
unfolding iter push
iter-push h name value w =
    iter_from-concat all_bytes h.fields name_range value_range
    ∙ rw
        (
          iter_from-more named value h.fields (AllInside-more h.bytes name h.fields w.inside),
          iter_from-more h.bytes name h.fields w.inside,
          slice-append named value name_range (omega (arith, length-append h.bytes name)),
          slice_last h.bytes name,
          slice_last named value,
        )
        refl
  where
    named : Bytes
    named = h.bytes ++ name

    all_bytes : Bytes
    all_bytes = named ++ value

    name_range : Range
    name_range = range (length h.bytes) (length named)

    value_range : Range
    value_range = range (length named) (length all_bytes)

all-concat :
    (fields : List Field) (f : Field)
    → all field_valid (fields ++ f ∷ []) ≡ (all field_valid fields && field_valid f)
all-concat [] f = ground arith
all-concat (g ∷ fields) f = ground (arith, all-concat fields f)

pub push-IsWellFormed :
    (h : Headers) (name value : Bytes) → IsWellFormed h → IsWellFormed (push h name value)
push-IsWellFormed h name value w = record {
  inside = unfold push in inside;
  flag_sound = λ e.
      rw (iter-push h name value w)
        (rw (all-concat (iter h) (name, value)) (sound (unfold push in e)));
}
  where
    named : Bytes
    named = h.bytes ++ name

    inside : AllInside (named ++ value) (
        h.fields
        ++ (range (length h.bytes) (length named), range (length named) (length (named ++ value)))
          ∷ [])
    inside =
        AllInside-concat (named ++ value) h.fields _ _
          (AllInside-more named value h.fields (AllInside-more h.bytes name h.fields w.inside))
          (omega (arith, length-append h.bytes name, length-append named value))
          (omega (arith, length-append h.bytes name, length-append named value))

    sound :
        (h.is_known_valid && (valid_name name && valid_value value)) ≡ true
        → (all field_valid (iter h) && (valid_name name && valid_value value)) ≡ true
    sound e = ground (arith, w.flag_sound)

abbrev pub kept : (Bytes → Bytes → Bool) → List Field → List Field
kept keep [] = []
kept keep ((name, value) ∷ rest) =
    let later = kept keep rest in if keep name value then (name, value) ∷ later else later

-- `retain` keeps, in order, the fields that pass its test, whatever the layout of the section.
pub iter-retain :
    (h : Headers) (keep : Bytes → Bytes → Bool) → iter (retain h keep) ≡ kept keep (iter h)
unfolding iter retain
iter-retain h keep = go h.fields
  where
    go :
        (fields : List (Range × Range))
        → iter_from h.bytes (retain_ranges keep h.bytes fields)
          ≡ kept keep (iter_from h.bytes fields)
    go [] = refl
    go ((name, value) ∷ rest) =
        elim (Bool-cases (keep (slice h.bytes name) (slice h.bytes value))) [
          | inl held ↦ rw held (ap (◌∷◌ (slice h.bytes name, slice h.bytes value)) (go rest))
          | inr cut ↦ rw cut (go rest)
        ]

retain-AllInside :
    (keep : Bytes → Bytes → Bool) (bytes : Bytes) (fields : List (Range × Range))
    → AllInside bytes fields
    → AllInside bytes (retain_ranges keep bytes fields)
unfolding retain_ranges
retain-AllInside keep bytes [] h = tt
retain-AllInside keep bytes ((name, value) ∷ rest) h =
    elim (Bool-cases (keep (slice bytes name) (slice bytes value))) [
      | inl held ↦ rw held (h.0, retain-AllInside keep bytes rest h.1)
      | inr cut ↦ rw cut (retain-AllInside keep bytes rest h.1)
    ]

all-kept :
    (keep : Bytes → Bytes → Bool) (fields : List Field)
    → all field_valid fields ≡ true
    → all field_valid (kept keep fields) ≡ true
all-kept keep [] h = refl
all-kept keep ((name, value) ∷ rest) h = ground (arith, all-kept keep rest)

pub retain-IsWellFormed :
    (h : Headers) (keep : Bytes → Bytes → Bool) → IsWellFormed h → IsWellFormed (retain h keep)
retain-IsWellFormed h keep w = record {
  inside = unfold retain in retain-AllInside keep h.bytes h.fields w.inside;
  flag_sound =
      λ e. rw (iter-retain h keep) (all-kept keep (iter h) (w.flag_sound (unfold retain in e)));
}

pub new-IsWellFormed : IsWellFormed new
unfolding new iter
new-IsWellFormed = record { inside = tt; flag_sound = λ e. refl }

pub from_section-IsWellFormed :
    (section : Bytes) (fields : List (Range × Range))
    → AllInside section fields
    → IsWellFormed (from_section section fields)
unfolding from_section
from_section-IsWellFormed section fields h = record { inside = h; flag_sound = λ e. cc }

-- On a well-formed section the cached flag never changes the answer.
pub is_valid-eq-all : (h : Headers) → IsWellFormed h → is_valid h ≡ all field_valid (iter h)
is_valid-eq-all h w =
    unfold is_valid in
    elim (Bool-cases h.is_known_valid) [
      | inl known ↦ rw (known, w.flag_sound known)
      | inr unknown ↦ rw unknown
    ]

-- Fields collected from any list are those of the list, in its order, after the ones there were,
-- and the section stays well formed.
pub iter-extend :
    (h : Headers) (fields : List Field)
    → IsWellFormed h
    → (iter (extend h fields) ≡ iter h ++ fields) × IsWellFormed (extend h fields)
unfolding extend
iter-extend h [] w = (sym (append-nil (iter h)), w)
iter-extend h ((name, value) ∷ rest) w =
    let (entries, well) = iter-extend (push h name value) rest (push-IsWellFormed h name value w) in
    (
      entries ∙ (rw (iter-push h name value w) (append_assoc (iter h) ((name, value) ∷ []) rest)),
      well,
    )
