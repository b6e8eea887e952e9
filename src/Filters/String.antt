-- ===== src/Filters/String.antt =====
-- libbitpunch/src/filters/string.c: strings that end at a boundary, or fill the space there is.
pub mod Boundary
pub mod Build
use bitpunch.Base.{ℕ, zero, suc, ◌+◌, ◌-◌, List, [], ◌∷◌, length, take, drop, get_or}
use bitpunch.Base.{Option, none, some, Bool, true, false, ◌&&◌, leb, ◌==◌, if◌then◌else◌, bytes_eq}
use bitpunch.Status.{Status, Result, ok, err, no_item}
use bitpunch.Filters.Attributes.{Attributes}

-- What a read makes of its output value: a string; or the length alone, where the type and the
-- pointer to the characters stay what they were.
pub data Written : Type 0 where
  whole : List ℕ → Written
  length_only : ℕ → Written

unfoldable pub string_read_no_boundary : List ℕ → Result Written
string_read_no_boundary buffer = ok (whole buffer)

-- memchr(): the place of the first byte `c`.
unfoldable pub find_byte : ℕ → List ℕ → Option ℕ
find_byte c [] = none
find_byte c (x ∷ xs) =
    let rest = find_byte c xs in
    if x == c then some 0 else elim rest [ none ↦ none | some i ↦ some (suc i) ]

unfoldable pub starts_with : List ℕ → List ℕ → Bool
starts_with [] buffer = true
starts_with (b ∷ bs) [] = false
starts_with (b ∷ bs) (x ∷ xs) = x == b && starts_with bs xs

-- memmem(): the place of the first occurrence.
unfoldable pub find_bytes : List ℕ → List ℕ → Option ℕ
unfolding starts_with
find_bytes needle [] = if starts_with needle [] then some 0 else none
find_bytes needle (x ∷ xs) =
    let rest = find_bytes needle xs in
    if starts_with needle (x ∷ xs)
    then some 0
    else elim rest [ none ↦ none | some i ↦ some (suc i) ]

unfoldable pub compute_item_size_single : ℕ → List ℕ → Result ℕ
unfolding find_byte
compute_item_size_single boundary buffer = elim (find_byte boundary buffer) [
  | some i ↦ ok (i + 1)
  | none ↦ ok (length buffer)
]

unfoldable pub string_read_single : ℕ → List ℕ → Result Written
string_read_single boundary buffer =
    let size = length buffer in
    if leb 1 size && get_or buffer (size - 1) 0 == boundary
    then ok (whole (take (size - 1) buffer))
    else ok (whole buffer)

-- The size of an item, given what the evaluation of "@boundary" returns.
unfoldable pub size_with : Result (List ℕ) → List ℕ → Result ℕ
unfolding find_bytes
size_with (ok boundary) buffer = elim (find_bytes boundary buffer) [
  | some i ↦ ok (i + length boundary)
  | none ↦ ok (length buffer)
]
size_with (err no_item) buffer = ok (length buffer)
size_with (err status) buffer = err status

unfoldable pub compute_item_size_generic : Attributes → List ℕ → Result ℕ
unfolding size_with
compute_item_size_generic attrs buffer = size_with (attrs.string "@boundary") buffer

unfoldable pub read_with : Result (List ℕ) → List ℕ → Result Written
unfolding bytes_eq
read_with (ok boundary) buffer =
    let size = length buffer in
    let len = length boundary in
    if leb len size && bytes_eq (drop (size - len) buffer) boundary
    then ok (whole (take (size - len) buffer))
    else ok (whole buffer)
read_with (err no_item) buffer = ok (length_only (length buffer))
read_with (err status) buffer = err status

unfoldable pub string_read_generic : Attributes → List ℕ → Result Written
unfolding read_with
string_read_generic attrs buffer = read_with (attrs.string "@boundary") buffer

-- A statement of the attribute list: its name, and its value when it is a constant without a
-- condition.
pub record AttributeStmt : Type 0 where
  pub name : List ℕ
  pub constant : Option (List ℕ)

-- The three kinds of a filter's instance.
pub data Instance : Type 0 where
  no_boundary generic : Instance
  single_char : ℕ → Instance

abbrev pub boundary_name : List ℕ
boundary_name = b'@' ∷ b'b' ∷ b'o' ∷ b'u' ∷ b'n' ∷ b'd' ∷ b'a' ∷ b'r' ∷ b'y' ∷ []

-- `switch (boundary.len)`
unfoldable pub build_constant : Option (List ℕ) → Instance
build_constant none = generic
build_constant (some []) = no_boundary
build_constant (some (c ∷ [])) = single_char c
build_constant (some (c ∷ d ∷ boundary)) = generic

-- The instance, and whether ITEMFLAG_FILLS_SLACK is left set.
unfoldable pub string_filter_instance_build : List AttributeStmt → Instance × Bool
unfolding build_constant bytes_eq
string_filter_instance_build [] = (no_boundary, true)
string_filter_instance_build (attr ∷ attrs) =
    let rest = string_filter_instance_build attrs in
    if bytes_eq attr.name boundary_name then (build_constant attr.constant, false) else rest

-- The callback that an instance reads with.
unfoldable pub read_instance : Instance → Attributes → List ℕ → Result Written
unfolding string_read_no_boundary string_read_single string_read_generic
read_instance no_boundary attrs buffer = string_read_no_boundary buffer
read_instance generic attrs buffer = string_read_generic attrs buffer
read_instance (single_char c) attrs buffer = string_read_single c buffer
