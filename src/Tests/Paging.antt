-- ===== src/Tests/Paging.antt =====
-- Requests for pages at concrete inputs (internal/adapters/sources/pagination/strategy.go).
use cross_border_ecommerce.Ingestion.Checkpoint.{format_cursor_checkpoint}
use cross_border_ecommerce.Base.{to_lower}
use cross_border_ecommerce.Ingestion.Checkpoint.{parse_cursor_checkpoint}
use cross_border_ecommerce.Base.{has_prefix, subst, some-injective, false}
use cross_border_ecommerce.Ingestion.Checkpoint.{cursor_prefix}
use cross_border_ecommerce.Sources.Pagination.{read_page}
use cross_border_ecommerce.Base.{itoa}
use cross_border_ecommerce.Sources.Pagination.{itoa64}
use cross_border_ecommerce.Base.{parse_int}
use cross_border_ecommerce.Base.{
  ◌≡◌, refl, none, some, [], ◌∷◌, Text, codes, text_eq, if◌then◌else◌, Option, trim_space,
  ascii_table, ok,
}
use cross_border_ecommerce.Sources.Pagination.{
  CursorPagination, new_cursor_pagination, new_page_pagination, apply_page, extract_cursor,
}
use cross_border_ecommerce.Sources.Pagination.Next.{IsNext, extract_cursor-IsNext}

abbrev strategy : CursorPagination
strategy = record { request_param = codes "cursor"; cursor_path = codes "next" }

new_cursor_pagination_defaults : new_cursor_pagination [] (codes " next ") ≡ strategy
unfolding new_cursor_pagination trim_space
new_cursor_pagination_defaults = refl

apply_page_asks :
    apply_page (new_page_pagination [] [] 0) (codes " 7 ")
    ≡ ok ((codes "page", codes "7") ∷ (codes "limit", codes "50") ∷ [])
unfolding apply_page itoa itoa64 new_page_pagination parse_int read_page trim_space
apply_page_asks = refl

abbrev found : Text → Option Text
found path = if text_eq path (codes "next") then some (codes " b ") else none

found_unprefixed :
    (raw : Text)
    → found (codes "next") ≡ some raw
    → has_prefix cursor_prefix (trim_space raw) ≡ false
unfolding has_prefix text_eq trim_space
found_unprefixed raw h =
    subst (λ s. has_prefix cursor_prefix (trim_space s) ≡ false) (some-injective h) refl

extract_cursor-IsNext_example :
    IsNext strategy ascii_table
      (codes "cursor:a")
      (found (codes "next"))
      (extract_cursor strategy ascii_table found (codes "cursor:a"))
extract_cursor-IsNext_example =
    extract_cursor-IsNext strategy ascii_table found (codes "cursor:a") found_unprefixed

extract_cursor_ends : extract_cursor strategy ascii_table found (codes "cursor:b") ≡ []
unfolding extract_cursor has_prefix parse_cursor_checkpoint text_eq to_lower trim_space
extract_cursor_ends = refl

extract_cursor_continues :
    extract_cursor strategy ascii_table found (codes "cursor:a") ≡ codes "cursor:b"
unfolding extract_cursor format_cursor_checkpoint has_prefix parse_cursor_checkpoint text_eq
    to_lower trim_space
extract_cursor_continues = refl
