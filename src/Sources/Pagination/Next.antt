-- ===== src/Sources/Pagination/Next.antt =====
-- The request behind a page (internal/adapters/sources/pagination/strategy.go).
use cross_border_ecommerce.Base.{
  ℕ, ◌+◌, ◌-◌, ◌^◌, ◌<◌, ◌≡◌, refl, sym, ap, ◌∙◌, subst, inl, inr, ◌==◌, Bool, true, false, not,
  ◌&&◌, [], ◌∷◌, Option, none, some, if◌then◌else◌, Bool-cases, arith, is_negative, slt, add64,
  Text, text_eq, text_eq_refl, text_eq→eq, has_prefix, trim_space, trim_space_idem, is_blank,
  is_empty, CaseTable, itoa, parse_int, parse_int-itoa, itoa-Unspaced, Unspaced-trim_space, Result,
  ok, err, ok-injective, ◌>>=◌, some-injective, false-ne-true,
}
use cross_border_ecommerce.Ingestion.Checkpoint.{
  cursor_prefix, format_cursor_checkpoint, parse_cursor_checkpoint,
}
use cross_border_ecommerce.Ingestion.Checkpoint.RoundTrip.{parse_cursor-format}
use cross_border_ecommerce.Sources.Pagination.{
  CursorPagination, PagePagination, Query, cursor_query, apply_cursor, or_empty, next_token,
  found_token, extract_cursor, itoa64, positive_page, read_page, or_first, extract_page,
}

abbrev pub query : CursorPagination → Text → Option Query
query p token = some (p.request_param, token)

-- The request for a checkpoint carries the cursor.
abbrev pub Carries : CursorPagination → CaseTable → Text → Text → Type 0
Carries p t checkpoint cursor = apply_cursor p t checkpoint ≡ ok (query p cursor)

-- What follows a page, by what its body has for a token. The pages end exactly where the body has no token
-- or a blank one, or the request before carried it already; otherwise the next request carries it.
pub data IsNext (p : CursorPagination) (t : CaseTable) (sent : Text)
    : Option Text → Text → Type 0 where
  missing : IsNext p t sent none []
  blank : {raw : Text} → is_blank raw ≡ true → IsNext p t sent (some raw) []
  repeated : {raw : Text} → Carries p t sent (trim_space raw) → IsNext p t sent (some raw) []
  continues :
      {raw next : Text}
      → is_blank raw ≡ false
      → (Carries p t sent (trim_space raw) → ⊥)
      → Carries p t next (trim_space raw)
      → IsNext p t sent (some raw) next

else_branch {ℓ} : {A : Type ℓ} (x y : A) (b : Bool) → b ≡ false → (if b then x else y) ≡ y
else_branch x y b h = ap (λ b. if b then x else y) h

then_branch {ℓ} : {A : Type ℓ} (x y : A) (b : Bool) → b ≡ true → (if b then x else y) ≡ x
then_branch x y b h = ap (λ b. if b then x else y) h

parse_format :
    (t : CaseTable) (token : Text)
    → is_empty token ≡ false
    → trim_space token ≡ token
    → has_prefix cursor_prefix token ≡ false
    → parse_cursor_checkpoint t (format_cursor_checkpoint token) ≡ ok token
parse_format t token b e h =
    parse_cursor-format t token (ap is_empty e ∙ b)
    ∙ else_branch _ _ _ (ap (has_prefix cursor_prefix) e ∙ h)
    ∙ ap ok e

nonempty-query :
    (p : CursorPagination) (token : Text)
    → is_empty token ≡ false
    → cursor_query p token ≡ query p token
nonempty-query p [] h = cc
nonempty-query p (c ∷ cs) h = refl

format-Carries :
    (p : CursorPagination) (t : CaseTable) (token : Text)
    → is_empty token ≡ false
    → trim_space token ≡ token
    → has_prefix cursor_prefix token ≡ false
    → Carries p t (format_cursor_checkpoint token) token
unfolding apply_cursor
format-Carries p t token b e h =
    ap (λ r. r >>= λ cursor. ok (cursor_query p cursor)) (parse_format t token b e h)
    ∙ ap ok (nonempty-query p token b)

-- A request that carries the token was sent for it.
Carries-cursor :
    (p : CursorPagination) (token : Text) (r : Result Text)
    → (r >>= λ cursor. ok (cursor_query p cursor)) ≡ ok (query p token)
    → (or_empty r ≡ token) × (is_empty (or_empty r) ≡ false)
Carries-cursor p token (err e) h = absurd (cc h)
Carries-cursor p token (ok []) h = absurd (cc h)
Carries-cursor p token (ok (c ∷ cs)) h = (ap (λ q. q.1) (some-injective (ok-injective h)), refl)

echoed :
    (token s : Text) → s ≡ token → is_empty s ≡ false → not (is_empty s) && text_eq token s ≡ true
echoed token s e n =
    ap (λ b. not b && text_eq token s) n ∙ (ap (text_eq token) e ∙ text_eq_refl token)

-- A token that was sent for its request was carried by it.
cursor-Carries :
    (p : CursorPagination) (token : Text) (r : Result Text)
    → not (is_empty (or_empty r)) && text_eq token (or_empty r) ≡ true
    → (r >>= λ cursor. ok (cursor_query p cursor)) ≡ ok (query p token)
cursor-Carries p token (err e) h = absurd (false-ne-true h)
cursor-Carries p token (ok []) h = absurd (false-ne-true h)
cursor-Carries p token (ok (c ∷ cs)) h =
    ap (λ s. ok (query p s)) (sym (text_eq→eq token (c ∷ cs) h))

next_token-IsNext :
    (p : CursorPagination) (t : CaseTable) (sent raw : Text)
    → is_blank raw ≡ false
    → has_prefix cursor_prefix (trim_space raw) ≡ false
    → IsNext p t sent
        (some raw)
        (next_token (or_empty (parse_cursor_checkpoint t sent)) (trim_space raw))
unfolding apply_cursor
next_token-IsNext p t sent raw b h =
    elim (Bool-cases (
      not (is_empty (or_empty (parse_cursor_checkpoint t sent)))
      && text_eq (trim_space raw) (or_empty (parse_cursor_checkpoint t sent)))) [
        | inl c ↦
            rw c (repeated (cursor-Carries p (trim_space raw) (parse_cursor_checkpoint t sent) c))
        | inr c ↦ rw c (
            continues b
              (λ x.
                let (same, full) =
                  Carries-cursor p (trim_space raw) (parse_cursor_checkpoint t sent) x in
                false-ne-true (sym c ∙ echoed (trim_space raw) _ same full))
              (format-Carries p t (trim_space raw) b (trim_space_idem raw) h))
      ]

found_token-IsNext :
    (p : CursorPagination) (t : CaseTable) (sent : Text) (found : Option Text)
    → ((raw : Text) → found ≡ some raw → has_prefix cursor_prefix (trim_space raw) ≡ false)
    → IsNext p t sent found (found_token (or_empty (parse_cursor_checkpoint t sent)) found)
found_token-IsNext p t sent none h = missing
found_token-IsNext p t sent (some raw) h = elim (Bool-cases (is_blank raw)) [
  | inl b ↦ subst (IsNext p t sent (some raw)) (sym (then_branch _ _ _ b)) (blank b)
  | inr b ↦
      subst (IsNext p t sent (some raw)) (sym (else_branch _ _ _ b))
        (next_token-IsNext p t sent raw b (h raw refl))
]

-- After a page, the pages end exactly if the body has no token, or a blank one, or one that the request
-- before carried already; otherwise the next request carries exactly this token, without the spaces around
-- it. That holds for every token that does not itself start with "cursor:".
pub extract_cursor-IsNext :
    (p : CursorPagination) (t : CaseTable) (lookup : Text → Option Text) (sent : Text)
    → ((raw : Text)
        → lookup p.cursor_path ≡ some raw
        → has_prefix cursor_prefix (trim_space raw) ≡ false)
    → IsNext p t sent (lookup p.cursor_path) (extract_cursor p t lookup sent)
unfolding extract_cursor
extract_cursor-IsNext p t lookup sent h = found_token-IsNext p t sent (lookup p.cursor_path) h

read_page-parsed :
    (s : Text) (n : ℕ)
    → trim_space s ≡ s
    → parse_int s ≡ some (false, n)
    → (n == 0) ≡ false
    → read_page s ≡ some n
unfolding read_page parse_int
read_page-parsed [] n e h z = absurd (cc h)
read_page-parsed (c ∷ s) n e h z = rw e (ap positive_page h ∙ else_branch none (some n) _ z)

itoa64-add : (n : ℕ) → n < 2 ^ 63 - 1 → itoa64 (add64 n 1) ≡ itoa (n + 1)
unfolding itoa64
itoa64-add n h = ap itoa64 sum ∙ else_branch _ (itoa (n + 1)) _ positive
  where
    sum : add64 n 1 ≡ n + 1
    sum = ground arith

    positive : is_negative (n + 1) ≡ false
    positive = ground arith

-- The numbers of the pages count up: after a full page, whose number is below 2 ^ 63 - 1, the checkpoint
-- stands for the page behind it.
pub extract_page-next :
    (p : PagePagination) (sent : Text) (n record_count : ℕ)
    → read_page sent ≡ some n
    → slt record_count p.page_size ≡ false
    → n < 2 ^ 63 - 1
    → read_page (extract_page p sent record_count) ≡ some (n + 1)
unfolding extract_page
extract_page-next p sent n record_count e full h =
    ap read_page
      (else_branch [] _ _ full ∙ (ap (λ page. itoa64 (add64 (or_first page) 1)) e ∙ itoa64-add n h))
    ∙ read_page-parsed (itoa (n + 1)) (n + 1)
        (Unspaced-trim_space (itoa (n + 1)) (itoa-Unspaced (n + 1)))
        (parse_int-itoa (n + 1) (omega arith)) (ground arith)
