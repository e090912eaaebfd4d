-- ===== src/Ingestion/Checkpoint/RoundTrip.antt =====
-- Checkpoints that are written and read back (internal/domain/ingestion/checkpoint.go).
use cross_border_ecommerce.Base.{
  ℕ, ◌==◌, ==_iff, false-ne-true, ◌&&◌, is_blank, ◌^◌, ◌<◌, ◌≡◌, refl, sym, ap, ◌∙◌, subst, inl,
  inr, true, false, [], ◌∷◌, ◌++◌, if◌then◌else◌, Bool-cases, arith, is_negative, Text, codes,
  is_space, trim_right, trim_space, trim_space_idem, trim_space-prefix, trim_right-trim_space,
  is_empty, has_prefix, CaseTable, to_lower, itoa, parse_int, parse_int-itoa, itoa-Unspaced,
  Unspaced-trim_right, ok,
}
use cross_border_ecommerce.Ingestion.Checkpoint.{
  byte_offset_prefix, cursor_prefix, after_prefix, format_byte_offset_checkpoint, accepted_offset,
  parse_byte_offset_checkpoint, format_cursor_checkpoint, accepted_cursor, parse_cursor_checkpoint,
}

lower-offset :
    (t : CaseTable) (s : Text)
    → has_prefix byte_offset_prefix (to_lower t (byte_offset_prefix ++ s)) ≡ true
unfolding to_lower has_prefix
lower-offset t s = refl

lower-cursor :
    (t : CaseTable) (s : Text) → has_prefix cursor_prefix (to_lower t (cursor_prefix ++ s)) ≡ true
unfolding to_lower has_prefix
lower-cursor t s = refl

cursor-not-offset :
    (t : CaseTable) (s : Text)
    → has_prefix byte_offset_prefix (to_lower t (cursor_prefix ++ s)) ≡ false
unfolding to_lower has_prefix
cursor-not-offset t s = refl

offset-trimmed :
    (s : Text) → trim_right s ≡ s → trim_space (byte_offset_prefix ++ s) ≡ byte_offset_prefix ++ s
unfolding is_space
offset-trimmed s e =
    trim_space-prefix b'o' (codes "ffset:") s
      (refl, (refl, (refl, (refl, (refl, (refl, (refl, tt))))))) e

cursor-trimmed :
    (s : Text) → trim_right s ≡ s → trim_space (cursor_prefix ++ s) ≡ cursor_prefix ++ s
unfolding is_space
cursor-trimmed s e =
    trim_space-prefix b'c' (codes "ursor:") s
      (refl, (refl, (refl, (refl, (refl, (refl, (refl, tt))))))) e

-- What ParseByteOffsetCheckpoint makes of a trimmed text behind its prefix.
parse_byte_offset-prefix :
    (t : CaseTable) (s : Text)
    → trim_right s ≡ s
    → parse_byte_offset_checkpoint t (byte_offset_prefix ++ s) ≡ accepted_offset (parse_int s)
unfolding parse_byte_offset_checkpoint
parse_byte_offset-prefix t s e = rw (offset-trimmed s e, lower-offset t s) refl

-- A byte offset is read back as it was written: for every offset below 2 ^ 63,
-- ParseByteOffsetCheckpoint accepts the text of FormatByteOffsetCheckpoint and returns the offset.
pub parse_byte_offset-format :
    (t : CaseTable) (offset : ℕ)
    → offset < 2 ^ 63
    → parse_byte_offset_checkpoint t (format_byte_offset_checkpoint offset) ≡ ok offset
unfolding format_byte_offset_checkpoint
parse_byte_offset-format t offset h =
    ap (parse_byte_offset_checkpoint t)
      (ap (λ b. if b then [] else byte_offset_prefix ++ itoa offset) positive)
    ∙ parse_byte_offset-prefix t (itoa offset)
        (Unspaced-trim_right (itoa offset) (itoa-Unspaced offset))
    ∙ ap accepted_offset (parse_int-itoa offset h)
  where
    positive : is_negative offset ≡ false
    positive = ground arith

has_prefix-split : (p s : Text) → has_prefix p s ≡ true → s ≡ p ++ after_prefix p s
unfolding has_prefix
has_prefix-split [] s h = refl
has_prefix-split (a ∷ p) [] h = cc
has_prefix-split (a ∷ p) (b ∷ s) h = elim (Bool-cases (a == b)) [
  | inl e ↦
      cons_eq (sym ((==_iff a b).0 e))
        (has_prefix-split p s (sym (ap (λ x. x && has_prefix p s) e) ∙ h))
  | inr e ↦ absurd (false-ne-true (sym (ap (λ x. x && has_prefix p s) e) ∙ h))
]
  where
    cons_eq : {x y : ℕ} {u v : Text} → x ≡ y → u ≡ v → x ∷ u ≡ y ∷ v
    cons_eq e e' = cc

-- What ParseCursorCheckpoint makes of a trimmed text behind its prefix.
parse_cursor-prefix :
    (t : CaseTable) (s : Text)
    → trim_space (cursor_prefix ++ s) ≡ cursor_prefix ++ s
    → parse_cursor_checkpoint t (cursor_prefix ++ s) ≡ accepted_cursor (trim_space s)
unfolding parse_cursor_checkpoint
parse_cursor-prefix t s e = rw (e, cursor-not-offset t s, lower-cursor t s) refl

parse_cursor-added :
    (t : CaseTable) (s : Text)
    → trim_right s ≡ s
    → trim_space s ≡ s
    → is_empty s ≡ false
    → parse_cursor_checkpoint t (cursor_prefix ++ s) ≡ ok s
parse_cursor-added t s e e' n = parse_cursor-prefix t s (cursor-trimmed s e) ∙ rw (e', n) refl

parse_cursor-kept :
    (t : CaseTable) (s : Text)
    → trim_space s ≡ s
    → has_prefix cursor_prefix s ≡ true
    → parse_cursor_checkpoint t s ≡ accepted_cursor (trim_space (after_prefix cursor_prefix s))
parse_cursor-kept t s e h =
    let split = has_prefix-split cursor_prefix s h in
    ap (parse_cursor_checkpoint t) split
    ∙ parse_cursor-prefix t (after_prefix cursor_prefix s) (subst (λ x. trim_space x ≡ x) split e)

-- What becomes of a token that is not blank: ParseCursorCheckpoint reads the text of
-- FormatCursorCheckpoint back as the token without the spaces around it, except that a token which itself
-- starts with "cursor:" loses that prefix, and is refused if nothing but spaces stands behind it.
pub parse_cursor-format :
    (t : CaseTable) (token : Text)
    → is_blank token ≡ false
    → parse_cursor_checkpoint t (format_cursor_checkpoint token) ≡ (
        if has_prefix cursor_prefix (trim_space token)
        then accepted_cursor (trim_space (after_prefix cursor_prefix (trim_space token)))
        else ok (trim_space token))
unfolding format_cursor_checkpoint
parse_cursor-format t token n = elim (Bool-cases (has_prefix cursor_prefix (trim_space token))) [
  | inl h ↦ rw (n, h) (parse_cursor-kept t (trim_space token) (trim_space_idem token) h)
  | inr h ↦
      rw (n, h)
        (parse_cursor-added t (trim_space token) (trim_right-trim_space token)
          (trim_space_idem token) n)
]
