-- ===== src/Text.antt =====
-- Python's `str`, as far as the bridge uses it: a text is the list of its code points.
-- `strip()` and `split()` take white space as `str.isspace` does. Letter case is that
-- of ASCII letters, and of the single characters whose other case is an ASCII letter (Text/Strip).
mod Equality
mod Strip
mod Split
pub mod Decimal
pub mod Normal
pub use Equality.{text, Text, text_eq_sound, text_eq_refl, text_eq_iff}
unfoldable pub use Equality.{text_eq, contains_text, starts_with}
unfoldable pub use Strip.{
  is_space, upper_char, lower_char, upper, lower, lstrip_by, rstrip_by, strip_by, strip, strip_char,
}
pub use Strip.{
  HeadKept, LastKept, strip_by-HeadKept, strip_by-LastKept, strip_by-All, strip_by_kept,
  strip_by_idem, HeadKept-All, LastKept-All,
}
unfoldable pub use Split.{split_at, join, words_from, words}
pub use Split.{Free, cons_head, split_at_last, split_at-piece, split_at-join}
