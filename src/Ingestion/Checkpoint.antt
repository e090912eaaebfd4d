-- ===== src/Ingestion/Checkpoint.antt =====
-- internal/domain/ingestion/checkpoint.go, without the checkpoints that are timestamps. Prefixes are cut off
-- by code points, where the source counts bytes: no letter of theirs is the lower case of another one.
pub mod RoundTrip
use cross_border_ecommerce.Base.{
  ℕ, zero, suc, ◌==◌, Bool, true, false, List, [], ◌∷◌, ◌++◌, Option, none, some, if◌then◌else◌,
  is_negative, Text, codes, trim_space, is_blank, is_empty, has_prefix, CaseTable, to_lower, itoa,
  parse_int, Result, ok, err, invalid_checkpoint,
}

abbrev pub byte_offset_prefix : Text
byte_offset_prefix = codes "offset:"

abbrev pub cursor_prefix : Text
cursor_prefix = codes "cursor:"

-- `s[len(prefix):]`.
abbrev pub after_prefix : Text → Text → Text
after_prefix [] s = s
after_prefix (_ ∷ _) [] = []
after_prefix (_ ∷ p) (_ ∷ s) = after_prefix p s

-- FormatByteOffsetCheckpoint.
unfoldable pub format_byte_offset_checkpoint : ℕ → Text
format_byte_offset_checkpoint offset =
    if is_negative offset then [] else byte_offset_prefix ++ itoa offset

abbrev pub accepted_offset : Option (Bool × ℕ) → Result ℕ
accepted_offset none = err invalid_checkpoint
accepted_offset (some (false, n)) = ok n
accepted_offset (some (true, n)) = if n == 0 then ok 0 else err invalid_checkpoint

-- ParseByteOffsetCheckpoint.
unfoldable pub parse_byte_offset_checkpoint : CaseTable → Text → Result ℕ
parse_byte_offset_checkpoint t cp =
    let trimmed = trim_space cp in
    if is_empty trimmed
    then ok 0
    else accepted_offset (
        parse_int (
          if has_prefix byte_offset_prefix (to_lower t trimmed)
          then after_prefix byte_offset_prefix trimmed
          else trimmed))

-- FormatCursorCheckpoint.
unfoldable pub format_cursor_checkpoint : Text → Text
format_cursor_checkpoint cursor =
    let trimmed = trim_space cursor in
    if is_empty trimmed
    then []
    else if has_prefix cursor_prefix trimmed
    then trimmed
    else cursor_prefix ++ trimmed

abbrev pub accepted_cursor : Text → Result Text
accepted_cursor cursor = if is_empty cursor then err invalid_checkpoint else ok cursor

-- ParseCursorCheckpoint.
unfoldable pub parse_cursor_checkpoint : CaseTable → Text → Result Text
parse_cursor_checkpoint t cp =
    let trimmed = trim_space cp in
    if is_empty trimmed
    then ok []
    else if has_prefix byte_offset_prefix (to_lower t trimmed)
    then err invalid_checkpoint
    else if has_prefix cursor_prefix (to_lower t trimmed)
    then accepted_cursor (trim_space (after_prefix cursor_prefix trimmed))
    else ok trimmed
