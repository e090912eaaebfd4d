-- ===== src/Sources/Pagination.antt =====
-- internal/adapters/sources/pagination/strategy.go, by cursors and by the numbers of pages. The request is the
-- query parameters that are set; what extraction.LookupString finds in the body is an argument.
pub mod Next
use cross_border_ecommerce.Base.{
  ℕ, ◌-◌, ◌^◌, ◌==◌, Bool, true, false, not, ◌&&◌, List, [], ◌∷◌, Option, none, some, if◌then◌else◌,
  is_negative, sle, slt, add64, Text, codes, text_eq, trim_space, is_blank, is_empty, CaseTable,
  itoa, parse_int, Result, ok, err, ◌>>=◌, invalid_checkpoint,
}
use cross_border_ecommerce.Ingestion.Checkpoint.{format_cursor_checkpoint, parse_cursor_checkpoint}

-- A query parameter and its value.
abbrev pub Query : Type 0
Query = Text × Text

abbrev pub or_default : Text → Text → Text
or_default default s = if is_blank s then default else trim_space s

pub record CursorPagination : Type 0 where
  pub request_param : Text
  pub cursor_path : Text

-- NewCursorPagination.
unfoldable pub new_cursor_pagination : Text → Text → CursorPagination
new_cursor_pagination request_param cursor_path = record {
  request_param = or_default (codes "cursor") request_param;
  cursor_path = or_default (codes "next_cursor") cursor_path;
}

abbrev pub cursor_query : CursorPagination → Text → Option Query
cursor_query p cursor = if is_empty cursor then none else some (p.request_param, cursor)

-- ApplyPagination of the cursors: the parameter that it sets, if any.
unfoldable pub apply_cursor : CursorPagination → CaseTable → Text → Result (Option Query)
apply_cursor p t checkpoint = do
  cursor ← parse_cursor_checkpoint t checkpoint
  ok (cursor_query p cursor)

-- A result whose error is ignored.
abbrev pub or_empty : Result Text → Text
or_empty (ok s) = s
or_empty (err e) = []

abbrev pub next_token : Text → Text → Text
next_token sent token =
    if not (is_empty sent) && text_eq token sent then [] else format_cursor_checkpoint token

abbrev pub found_token : Text → Option Text → Text
found_token sent none = []
found_token sent (some raw) = if is_blank raw then [] else next_token sent (trim_space raw)

-- ExtractNextCheckpoint of the cursors, by what stands at a path of the body.
unfoldable pub extract_cursor : CursorPagination → CaseTable → (Text → Option Text) → Text → Text
extract_cursor p t lookup sent =
    found_token (or_empty (parse_cursor_checkpoint t sent)) (lookup p.cursor_path)

pub record PagePagination : Type 0 where
  pub page_param : Text
  pub page_size_param : Text
  pub page_size : ℕ

-- NewPagePagination.
unfoldable pub new_page_pagination : Text → Text → ℕ → PagePagination
new_page_pagination page_param page_size_param page_size = record {
  page_param = or_default (codes "page") page_param;
  page_size_param = or_default (codes "limit") page_size_param;
  page_size = if sle page_size 0 then 50 else page_size;
}

-- Itoa on any int.
unfoldable pub itoa64 : ℕ → Text
itoa64 n = if is_negative n then b'-' ∷ itoa (2 ^ 64 - n) else itoa n

abbrev pub positive_page : Option (Bool × ℕ) → Option ℕ
positive_page none = none
positive_page (some (true, n)) = none
positive_page (some (false, n)) = if n == 0 then none else some n

-- The page that a checkpoint stands for.
unfoldable pub read_page : Text → Option ℕ
read_page checkpoint =
    let trimmed = trim_space checkpoint in
    if is_empty trimmed then some 1 else positive_page (parse_int trimmed)

abbrev pub paged_query : PagePagination → Option ℕ → Result (List Query)
paged_query p none = err invalid_checkpoint
paged_query p (some page) =
    ok ((p.page_param, itoa64 page) ∷ (p.page_size_param, itoa64 p.page_size) ∷ [])

-- ApplyPagination of the pages.
unfoldable pub apply_page : PagePagination → Text → Result (List Query)
apply_page p checkpoint = paged_query p (read_page checkpoint)

abbrev pub or_first : Option ℕ → ℕ
or_first none = 1
or_first (some page) = page

-- ExtractNextCheckpoint of the pages, by the number of records of the page.
unfoldable pub extract_page : PagePagination → Text → ℕ → Text
extract_page p sent record_count =
    if slt record_count p.page_size then [] else itoa64 (add64 (or_first (read_page sent)) 1)
