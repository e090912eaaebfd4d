-- ===== src/Tests/Checkpoints.antt =====
-- Checkpoints at concrete inputs (internal/domain/ingestion/checkpoint.go).
use cross_border_ecommerce.Base.{to_lower}
use cross_border_ecommerce.Base.{parse_int}
use cross_border_ecommerce.Base.{itoa}
use cross_border_ecommerce.Base.{
  ◌≡◌, refl, arith, if◌then◌else◌, codes, trim_space, has_prefix, ascii_table, ok, err,
  invalid_checkpoint,
}
use cross_border_ecommerce.Ingestion.Checkpoint.{
  cursor_prefix, after_prefix, accepted_cursor, format_byte_offset_checkpoint,
  parse_byte_offset_checkpoint, format_cursor_checkpoint, parse_cursor_checkpoint,
}
use cross_border_ecommerce.Ingestion.Checkpoint.RoundTrip.{
  parse_byte_offset-format, parse_cursor-format,
}

format_byte_offset_writes : format_byte_offset_checkpoint 1047 ≡ codes "offset:1047"
unfolding format_byte_offset_checkpoint itoa
format_byte_offset_writes = refl

parse_byte_offset_reads :
    parse_byte_offset_checkpoint ascii_table (codes " OFFSET:-7") ≡ err invalid_checkpoint
unfolding has_prefix parse_byte_offset_checkpoint parse_int to_lower trim_space
parse_byte_offset_reads = refl

parse_cursor_loses :
    parse_cursor_checkpoint ascii_table (format_cursor_checkpoint (codes "cursor:a"))
    ≡ ok (codes "a")
unfolding format_cursor_checkpoint has_prefix parse_cursor_checkpoint to_lower trim_space
parse_cursor_loses = refl

parse_byte_offset-format_example :
    parse_byte_offset_checkpoint ascii_table (format_byte_offset_checkpoint 1047) ≡ ok 1047
parse_byte_offset-format_example = parse_byte_offset-format ascii_table 1047 (omega arith)

parse_cursor-format_example :
    parse_cursor_checkpoint ascii_table (format_cursor_checkpoint (codes " a1 ")) ≡ (
      if has_prefix cursor_prefix (trim_space (codes " a1 "))
      then accepted_cursor (trim_space (after_prefix cursor_prefix (trim_space (codes " a1 "))))
      else ok (trim_space (codes " a1 ")))
unfolding trim_space
parse_cursor-format_example = parse_cursor-format ascii_table (codes " a1 ") refl
