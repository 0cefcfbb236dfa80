-- ===== src/Terminal/Tests/Texts.antt =====
-- terminal.c: `page_append` on a concrete screen.
use kindle_myts.Base.{true, ◌≡◌, refl, arith, [], ◌∷◌, ◌++◌, some, fill, store, splice, Returns}
use kindle_myts.Terminal.{Screen, IsWf}
use kindle_myts.Terminal.Tests.{small, small-IsWf}
use kindle_myts.Terminal.Append.{
  append_loop, append_round, after_round, page_append, dispatch, leave, skip,
}
use kindle_myts.Terminal.Append.Invariant.{page_append-IsWf}
use kindle_myts.Terminal.Append.Wide.{encode_all, page_append_wide}
use kindle_myts.Terminal.Append.Text.{page_append_text}
use kindle_myts.Terminal.Glyph.{put_code, put_char, write_cell, advance, scroll_loop}
use kindle_myts.Terminal.Decode.{utf8_to_ucs2}
use kindle_myts.Terminal.Decode.RoundTrip.{encode, utf8_to_ucs2-encode}

abbrev pub greeted : Screen
greeted = record small {
  cur = 7;
  page = b'a' ∷ b'b' ∷ b'c' ∷ b'd' ∷ b'e' ∷ b'H' ∷ b'i' ∷ b'h' ∷ b'i' ∷ b'j' ∷ b'k' ∷ b'l' ∷ [];
  attributes = 1 ∷ 1 ∷ 1 ∷ 1 ∷ 2 ∷ 7 ∷ 7 ∷ 2 ∷ 3 ∷ 3 ∷ 3 ∷ 3 ∷ [];
}

pub greet : page_append small (b'H' ∷ b'i' ∷ 0x1b ∷ []) ≡ some (greeted, 0x1b ∷ [])
unfolding page_append append_loop append_round after_round dispatch leave skip put_code put_char
    write_cell advance scroll_loop store splice fill
greet = refl

page_append_text_example :
    Returns (page_append small (b'H' ∷ b'i' ∷ [])) (λ out. IsWf out.0 × (out.1 ≡ []))
page_append_text_example =
    page_append_text (b'H' ∷ b'i' ∷ []) small-IsWf refl (ground arith, (ground arith, tt))

page_append-IsWf_example : IsWf greeted
page_append-IsWf_example = page_append-IsWf small (b'H' ∷ b'i' ∷ 0x1b ∷ []) small-IsWf greet

-- the euro sign
utf8_to_ucs2-encode_example : utf8_to_ucs2 (encode 0x20ac ++ (b'x' ∷ [])) ≡ some (0x20ac, b'x' ∷ [])
utf8_to_ucs2-encode_example = utf8_to_ucs2-encode 0x20ac (b'x' ∷ []) (omega arith) (omega arith)

encode_euro : encode 0x20ac ≡ 0xe2 ∷ 0x82 ∷ 0xac ∷ []
unfolding encode
encode_euro = refl

abbrev wide : Screen
wide = record small { utf8 = true }

wide-IsWf : IsWf wide
wide-IsWf = ground (arith, small-IsWf)

-- the euro sign and a newline
page_append_wide_example :
    Returns (page_append wide (encode_all (0x20ac ∷ b'\n' ∷ []))) (λ out. IsWf out.0 × (out.1 ≡ []))
page_append_wide_example =
    page_append_wide (0x20ac ∷ b'\n' ∷ []) wide-IsWf refl
      ((omega arith, omega arith, ground arith), ((omega arith, omega arith, ground arith), tt))
