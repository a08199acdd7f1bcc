-- ===== src/Jsonutil/Json/Tests.antt =====
-- Documents read and refused.
use clawbake.Base.{◌≡◌, refl, some, true, false, codes}
use clawbake.Jsonutil.Strings.{read_literal, scan_literal, step, unescape, hex_value, combine}
use clawbake.Jsonutil.Json.{
  number, boolean, array, nil, item, string, object, end, field, parse, valid,
}

parse_document :
    parse (codes " {\"a\": [1, -2.5e+3, true], \"b\": {}, \"a\": \"x\\u0041\"} ")
    ≡ some (
        object (
          field
            (codes "a")
            (array (
              item
                (number (codes "1"))
                (item (number (codes "-2.5e+3")) (item (boolean true) nil))))
            (field (codes "b") (object end) (field (codes "a") (string (codes "xA")) end))))
unfolding parse read_literal scan_literal step unescape hex_value combine
parse_document = refl

refused :
    (valid (codes "{\"a\":01}") ≡ false)
    × (valid (codes "[1,]") ≡ false)
    × (valid (codes "{} {}") ≡ false)
    × (valid (codes "\"\n\"") ≡ false)
    × (valid (codes "1e999") ≡ true)
unfolding valid read_literal scan_literal step
refused = (refl, refl, refl, refl, refl)
