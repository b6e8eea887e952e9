-- ===== src/Filters/Base64/Table.antt =====
-- libbitpunch/src/filters/base64.c: the table of the values of characters.
use bitpunch.Base.{ℕ, List, [], ◌∷◌, get_or}
use bitpunch.Base.Int.{ℤ, pos, negsuc}

abbrev bad : ℤ
bad = negsuc 0

-- The rows of `lookup`, sixteen entries each; a row of invalid characters is `bad_row`.
abbrev bad_row : List ℤ → List ℤ
bad_row t =
    bad ∷ bad ∷ bad ∷ bad ∷ bad ∷ bad ∷ bad ∷ bad ∷ bad ∷ bad ∷ bad ∷ bad ∷ bad ∷ bad ∷ bad ∷ bad
    ∷ t

abbrev row_20 : List ℤ → List ℤ
row_20 t =
    bad
    ∷ bad
    ∷ bad
    ∷ bad
    ∷ bad
    ∷ bad
    ∷ bad
    ∷ bad
    ∷ bad
    ∷ bad
    ∷ bad
    ∷ pos 62
    ∷ bad
    ∷ bad
    ∷ bad
    ∷ pos 63
    ∷ t

abbrev row_30 : List ℤ → List ℤ
row_30 t =
    pos 52
    ∷ pos 53
    ∷ pos 54
    ∷ pos 55
    ∷ pos 56
    ∷ pos 57
    ∷ pos 58
    ∷ pos 59
    ∷ pos 60
    ∷ pos 61
    ∷ bad
    ∷ bad
    ∷ bad
    ∷ bad
    ∷ bad
    ∷ bad
    ∷ t

abbrev row_40 : List ℤ → List ℤ
row_40 t =
    bad
    ∷ pos 0
    ∷ pos 1
    ∷ pos 2
    ∷ pos 3
    ∷ pos 4
    ∷ pos 5
    ∷ pos 6
    ∷ pos 7
    ∷ pos 8
    ∷ pos 9
    ∷ pos 10
    ∷ pos 11
    ∷ pos 12
    ∷ pos 13
    ∷ pos 14
    ∷ t

abbrev row_50 : List ℤ → List ℤ
row_50 t =
    pos 15
    ∷ pos 16
    ∷ pos 17
    ∷ pos 18
    ∷ pos 19
    ∷ pos 20
    ∷ pos 21
    ∷ pos 22
    ∷ pos 23
    ∷ pos 24
    ∷ pos 25
    ∷ bad
    ∷ bad
    ∷ bad
    ∷ bad
    ∷ bad
    ∷ t

abbrev row_60 : List ℤ → List ℤ
row_60 t =
    bad
    ∷ pos 26
    ∷ pos 27
    ∷ pos 28
    ∷ pos 29
    ∷ pos 30
    ∷ pos 31
    ∷ pos 32
    ∷ pos 33
    ∷ pos 34
    ∷ pos 35
    ∷ pos 36
    ∷ pos 37
    ∷ pos 38
    ∷ pos 39
    ∷ pos 40
    ∷ t

abbrev row_70 : List ℤ → List ℤ
row_70 t =
    pos 41
    ∷ pos 42
    ∷ pos 43
    ∷ pos 44
    ∷ pos 45
    ∷ pos 46
    ∷ pos 47
    ∷ pos 48
    ∷ pos 49
    ∷ pos 50
    ∷ pos 51
    ∷ bad
    ∷ bad
    ∷ bad
    ∷ bad
    ∷ bad
    ∷ t

lookup_table : List ℤ
lookup_table = bad_row (
    bad_row (
      row_20 (
        row_30 (
          row_40 (
            row_50 (
              row_60 (
                row_70 (
                  bad_row
                    (bad_row (bad_row (bad_row (bad_row (bad_row (bad_row (bad_row [])))))))))))))))

-- `lookup[c]`, for a byte `c`.
unfoldable pub lookup : ℕ → ℤ
unfolding lookup_table
lookup c = get_or lookup_table c bad
