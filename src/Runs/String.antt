-- ===== src/Runs/String.antt =====
-- Runs of the string filter.
use bitpunch.Base.{◌≡◌, refl, [], ◌∷◌, some, false}
use bitpunch.Status.{ok, err, no_item}
use bitpunch.Filters.Attributes.{Attributes}
use bitpunch.Filters.String.{
  whole, AttributeStmt, boundary_name, compute_item_size_generic, string_read_generic,
  read_instance, string_filter_instance_build, starts_with,
}
use bitpunch.Filters.String.Boundary.{compute_item_size_generic-read}
use bitpunch.Filters.String.Build.{string_filter_instance_build-read}

-- A line that ends with CR LF, and one that ends with LF.
abbrev crlf : Attributes
crlf = record {
  integer = λ name. err no_item;
  boolean = λ name. err no_item;
  string = λ name. ok (13 ∷ 10 ∷ []);
}

abbrev lf : Attributes
lf = record {
  integer = λ name. err no_item;
  boolean = λ name. err no_item;
  string = λ name. ok (10 ∷ []);
}

line_example :
    (compute_item_size_generic crlf (b'a' ∷ 13 ∷ b'b' ∷ 13 ∷ 10 ∷ b'c' ∷ []) ≡ ok 5)
    × (string_read_generic crlf (b'a' ∷ 13 ∷ b'b' ∷ 13 ∷ 10 ∷ [])
        ≡ ok (whole (b'a' ∷ 13 ∷ b'b' ∷ [])))
unfolding starts_with
line_example =
    compute_item_size_generic-read crlf (13 ∷ 10 ∷ []) (b'a' ∷ 13 ∷ b'b' ∷ []) (b'c' ∷ []) refl
      (refl, (refl, (refl, tt)))

abbrev boundary_stmt : AttributeStmt
boundary_stmt = record { name = boundary_name; constant = some (10 ∷ []) }

build_example :
    (read_instance (string_filter_instance_build (boundary_stmt ∷ [])).0 lf (b'a' ∷ 10 ∷ [])
      ≡ string_read_generic lf (b'a' ∷ 10 ∷ []))
    × ((string_filter_instance_build (boundary_stmt ∷ [])).1 ≡ false)
build_example =
    string_filter_instance_build-read lf [] [] boundary_stmt (10 ∷ []) (b'a' ∷ 10 ∷ []) tt refl refl
      refl
