-- ===== src/Engine/Startup.antt =====
-- app/application.hpp: `init`, which loads the font and clears the canvas.
use kindle_myts.Base.{ℕ, List, [], ◌∷◌, ◌++◌, Option, replicate, if◌then◌else◌}
use kindle_myts.Engine.Font.{Font, load_hex_file, load_hex_data}
use kindle_myts.Engine.Pixmap
use kindle_myts.Engine.Pixmap.{OwnedPixmap}

-- the lines of the space and of the letter A
abbrev pub fallback : List ℕ
fallback =
    (b'0' ∷ b'0' ∷ b'2' ∷ b'0' ∷ b':' ∷ replicate 24 b'0')
    ++ (b'\n' ∷ b'0' ∷ b'0' ∷ b'4' ∷ b'1' ∷ b':' ∷ replicate 6 b'0')
    ++ (b'3'
        ∷ b'c'
        ∷ b'6'
        ∷ b'6'
        ∷ b'6'
        ∷ b'6'
        ∷ b'7'
        ∷ b'e'
        ∷ b'6'
        ∷ b'6'
        ∷ b'6'
        ∷ b'6'
        ∷ replicate 6 b'0')
    ++ (b'\n' ∷ [])

unfoldable pub init : Option (List ℕ) → Font → OwnedPixmap → Font × OwnedPixmap
unfolding load_hex_file load_hex_data
init file font canvas =
    let (font_ok, loaded) = load_hex_file file font in
    (if font_ok then loaded else (load_hex_data fallback loaded).1, Pixmap.clear 0xff canvas)
