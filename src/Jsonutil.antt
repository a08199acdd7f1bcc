-- ===== src/Jsonutil.antt =====
-- internal/jsonutil: templates with placeholders, and the merge of JSON documents. `Strings` is what
-- the code uses of encoding/json for string literals.
pub mod Strings
pub mod Json
pub mod Merge
pub mod Template
