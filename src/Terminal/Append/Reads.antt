-- ===== src/Terminal/Append/Reads.antt =====
-- terminal.c, `page_append`: text byte by byte, and text that arrives in pieces.
use kindle_myts.Base.{
  ℕ, suc, ◌+◌, ◌-◌, ◌%◌, ◌≡◌, ◌≢◌, refl, sym, ◌∙◌, arith, false, List, [], ◌∷◌, ◌++◌, Option, some,
  none, ◌>>=◌, length, Returns,
}
use kindle_myts.Terminal.{Screen, IsWf}
use kindle_myts.Terminal.Append.{
  next, skip, leave, dispatch, after_round, append_round, append_loop, page_append,
}
use kindle_myts.Terminal.Append.Text.{HasNoEscape}
use kindle_myts.Terminal.Glyph.{put_code}
use kindle_myts.Terminal.Glyph.Safety.{IsFine, put_code_returns}

-- The characters one by one, each put where the cursor stands.
unfoldable pub type_all : Screen → List ℕ → Option Screen
type_all s [] = some s
type_all s (b ∷ bytes) = put_code s b (s.cur % s.cols) >>= λ t. type_all t bytes

byte_round_next :
    (s : Screen) (pos a : ℕ) (rest : List ℕ) (t : Screen)
    → s.utf8 ≡ false
    → a ≢ 0x1b
    → put_code s a (s.cur % s.cols) ≡ some t
    → append_round s pos a rest ≡ some (next t rest)
unfolding append_round dispatch leave skip
byte_round_next s pos a rest t narrow plain e = ground (arith, e)

loop_types :
    (pos : ℕ) {s : Screen} (bytes : List ℕ)
    → IsWf s
    → s.utf8 ≡ false
    → HasNoEscape bytes
    → append_loop (length bytes) pos s bytes ≡ (type_all s bytes >>= λ t. some (t, []))
unfolding append_loop after_round type_all
loop_types pos {s} [] w narrow h = refl
loop_types pos {s} (a ∷ rest) w narrow (plain, h) =
    let (t, e, f) = put_code_returns a (s.cur % s.cols) w in
    let later = loop_types (pos + (suc (length rest) - length rest)) rest f.0 (f.1 ∙ narrow) h in
    rw (byte_round_next s pos a rest t narrow plain e, e) later

-- In the one-byte mode `page_append` of a text with no ESC on a well-formed screen is the putting of
-- its characters one by one, with nothing left over.
page_append-type_all :
    {s : Screen} (bytes : List ℕ)
    → IsWf s
    → s.utf8 ≡ false
    → HasNoEscape bytes
    → page_append s bytes ≡ (type_all s bytes >>= λ t. some (t, []))
unfolding page_append
page_append-type_all bytes w narrow h = loop_types 0 bytes w narrow h

type_all_returns : {s : Screen} (bytes : List ℕ) → IsWf s → Returns (type_all s bytes) (IsFine s)
unfolding type_all
type_all_returns {s} [] w = (s, refl, (w, refl))
type_all_returns {s} (b ∷ bytes) w =
    let (t, e, f) = put_code_returns b (s.cur % s.cols) w in
    let (u, e', g) = type_all_returns {s = t} bytes f.0 in (u, rw e e', (g.0, g.1 ∙ f.1))

then_type_all :
    (m : Option Screen) (xs ys : List ℕ)
    → ((t : Screen) → type_all t (xs ++ ys) ≡ (type_all t xs >>= λ u. type_all u ys))
    → (m >>= λ t. type_all t (xs ++ ys)) ≡ ((m >>= λ t. type_all t xs) >>= λ u. type_all u ys)
then_type_all none xs ys h = refl
then_type_all (some t) xs ys h = h t

type_all-append :
    (s : Screen) (xs ys : List ℕ) → type_all s (xs ++ ys) ≡ (type_all s xs >>= λ t. type_all t ys)
unfolding type_all
type_all-append s [] ys = refl
type_all-append s (x ∷ xs) ys =
    then_type_all (put_code s x (s.cur % s.cols)) xs ys λ t. type_all-append t xs ys

HasNoEscape-append : (xs ys : List ℕ) → HasNoEscape xs → HasNoEscape ys → HasNoEscape (xs ++ ys)
HasNoEscape-append [] ys h k = k
HasNoEscape-append (x ∷ xs) ys h k = (h.0, HasNoEscape-append xs ys h.1 k)

-- In the one-byte mode, for texts with no ESC on a well-formed screen: `page_append` puts the
-- characters one by one, each where the cursor then stands, and leaves nothing over; so two texts
-- taken in one behind the other are the one text of both.
pub page_append_pieces :
    {s : Screen} (xs ys : List ℕ)
    → IsWf s
    → s.utf8 ≡ false
    → HasNoEscape xs
    → HasNoEscape ys
    → (page_append s xs ≡ (type_all s xs >>= λ t. some (t, [])))
      × (page_append s (xs ++ ys) ≡ (page_append s xs >>= λ out. page_append out.0 (out.1 ++ ys)))
page_append_pieces {s} xs ys w narrow h k =
    let (t, e, f) = type_all_returns xs w in
    let first = page_append-type_all xs w narrow h in
    let second = page_append-type_all ys f.0 (f.1 ∙ narrow) k in
    let both = page_append-type_all (xs ++ ys) w narrow (HasNoEscape-append xs ys h k) in
    (first, rw (both, first, type_all-append s xs ys, e) (sym second))
