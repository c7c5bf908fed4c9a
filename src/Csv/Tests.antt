-- ===== src/Csv/Tests.antt =====
-- A line with a quoted field.
use luaxx.Base.{c_string, ◌≡◌, refl, [], ◌∷◌, ◌++◌, true, some, arith}
use luaxx.Csv.{
  double, convert_field, convert_csv_line, copy_field, take_field, trim_line_end, fields, no_line,
  parse_fields, parse_csv_line,
}
use luaxx.Csv.Fields.{take_field-convert_field}

-- `a,"` behind a comma, and then `b`
take_field-convert_field_example :
    take_field 44 (c_string (convert_field 44 (97 ∷ 44 ∷ 34 ∷ []) ++ (44 ∷ 98 ∷ [])))
    ≡ some (true, (97 ∷ 44 ∷ 34 ∷ [], 34 ∷ 44 ∷ 98 ∷ []))
take_field-convert_field_example =
    take_field-convert_field 44 (97 ∷ 44 ∷ 34 ∷ []) (98 ∷ []) (λ e. absurd (omega (arith, e)))
      (λ e. absurd (omega (arith, e)))
      ((λ e. absurd (omega (arith, e))), ((λ e. absurd (omega (arith, e))), tt)) (omega arith)

-- `"a,b",c` and a newline
reads_line :
    parse_csv_line 44 (convert_csv_line 44 ((97 ∷ 44 ∷ 98 ∷ []) ∷ (99 ∷ []) ∷ []) ++ (10 ∷ []))
    ≡ fields ((97 ∷ 44 ∷ 98 ∷ []) ∷ (99 ∷ []) ∷ [])
unfolding parse_csv_line parse_fields take_field copy_field trim_line_end convert_csv_line
    convert_field double
reads_line = refl

-- The empty field behind a quoted one is lost: `"a,b",` and a newline.
loses_field :
    parse_csv_line 44 (convert_csv_line 44 ((97 ∷ 44 ∷ 98 ∷ []) ∷ [] ∷ []) ++ (10 ∷ []))
    ≡ fields ((97 ∷ 44 ∷ 98 ∷ []) ∷ [])
unfolding parse_csv_line parse_fields take_field copy_field trim_line_end convert_csv_line
    convert_field double
loses_field = refl

-- `""""`, a comma, `b` and a newline: the line is refused, as its first field begins with a quote.
refuses_quote :
    parse_csv_line 44 (convert_csv_line 44 ((34 ∷ []) ∷ (98 ∷ []) ∷ []) ++ (10 ∷ [])) ≡ no_line
unfolding parse_csv_line parse_fields take_field copy_field trim_line_end convert_csv_line
    convert_field double
refuses_quote = refl
