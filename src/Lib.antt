-- ===== src/Lib.antt =====
-- kindle-myts: the terminal emulator (terminal.c), the launchpad (launchpad.c), the event loop
-- (myts.c), pixmaps (pixop.c), the dynamic strings (dynstring.c) and the configuration files
-- (config.c) of the C program, and the program in C++ (app, core, graphics, help, input and terminal),
-- as functions on values.
--
-- The program runs shells on pseudo terminals. `page_append` takes the bytes that a shell has
-- written, interprets control characters, escapes and control sequences (`do_csi`), and changes the
-- screen of the session: a page of cells, an attribute for each cell, a cursor, a scroll region and
-- a scrollback area. The event loop calls a handler for every session, before and behind `select`:
-- `handle_shell` moves bytes between a shell and its screen, `handle_launchpad` takes key events. A key
-- event in terminal mode (`process_term`) puts the string of the key into the key queue of the current
-- terminal's session, and `process_screen` draws that session's screen. Text is collected in dynamic
-- strings, and keys and shells are set up from configuration files.
--
-- The program in C++ does the same work with other parts. `feed` takes the bytes of the shell, and the
-- parser calls the session for characters and control sequences; the session marks the rows that it
-- changes. `render_frame` takes the marks, marks their rectangle dirty on the display, and flushes: the
-- driver is called for an area or for the whole screen. `handle_input_event` turns a key event into
-- bytes, and asks the help, which takes the event or lets the bytes go to the shell.
--
-- State and steps. A session's screen (`struct my_sess`) is the record `Screen`; every C function
-- that changes it takes the screen and returns the next one. An access outside the array it is meant
-- for, an overflow of an `int` and a parameter that no `int` holds are `none`; so a theorem that an
-- operation returns says that the C code stays inside its memory. The cells of `page` are list
-- elements; in UTF-8 mode each has two bytes in C. `memcpy` on overlapping ranges is read as a move.
-- A C string is the list of its bytes, less the NUL, each below 256 and not 0.
--
-- Files:
--   Base                 names passed on, and lists, memory blocks, tests and faults (no code)
--   Terminal             terminal.c, `struct my_sess`, and the invariant `IsWf`
--   Terminal/Cursor      the macro `B`, which limits the cursor
--   Terminal/Page        `erase`, `page_scroll`, `page_scrolldown`; below it the proofs on them
--   Terminal/Csi         `do_csi`; Params its parameters, Motion, Edit and Modes its commands,
--                        Commands, Lines, Cells, Attributes, Bounds and Total the proofs
--   Terminal/Decode      `utf8_to_ucs2`, and its round trip with an encoder
--   Terminal/Glyph       `page_append`, the characters that are no escape, and the proofs
--   Terminal/Append      `page_append`, escapes and the loop, and the proofs
--   Terminal/Start       `term_new` up to `forkpty`
--   Terminal/Keys        `term_keyin` and `term_keyboard`, the key queue
--   Terminal/Shell       a session: `term_state`, `term_screen`, `handle_shell`; Safety and Served the proofs
--   Terminal/Tests       runs on a concrete screen
--   Events/Timers        myts.c: the timers and the timeout of `select`
--   Events/Loop          `new_sess`, and the rounds of `mainloop`
--   Events/Rounds        what rounds do to the list of sessions
--   Events/Tests         the timers on concrete times, and runs of three sessions
--   Launchpad            launchpad.c: the entries of the key table
--   Launchpad/Table      `ecmp` and `ecmp1`, the order of the key table; Unique: the removal of
--                        duplicates in `launchpad_init`, with Counts and Once for the proofs
--   Launchpad/Typing     `process_term`, the string of a key; Bounds and Letters the proofs
--   Launchpad/State      `struct lp_state`
--   Launchpad/Screen     `print_buf` and `process_screen`; View, Window and Shown the proofs
--   Launchpad/Help       `print_keymap`
--   Launchpad/Term       `process_term` and `curterm_end`; Keys and Back the proofs
--   Launchpad/Shells     `shell_find`, `term_dead`, `free_terminals`; Links and Found the proofs
--   Launchpad/Input      `process_event`, `handle_launchpad` and the restart; Signals the proofs
--   Launchpad/Tests      runs of a launchpad with one terminal
--   Pixop                pixop.c: `pix_blt`, `pix_alloc`; Rows and Safety the proofs
--   Pixop/Tests          a character drawn on a small pixmap
--   Config               config.c: sections, entries, and `cfg_parse`
--   Config/Text          `skipws`, `trimws`, `parse_name` and section names
--   Config/Lookup        the entries that a pair sets
--   Config/Pairs         the line of a pair
--   Config/Tests         runs on concrete lines
--   Dynstring            dynstring.c: the strings and their operations, but for printing
--   Dynstring/Grow       the growth of the block
--   Dynstring/Contents   appending
--   Dynstring/Cut        truncation, shifting, reset
--   Dynstring/Print      `__dynstr_helper` and `dsprintf`; Retry its loop
--   Dynstring/Heap       an allocator for tests
--   Dynstring/Tests      runs on a concrete allocator
--   Engine/Session       terminal/terminal_session.hpp; below it the proofs on it and the parser
--   Engine/Parser        terminal/ansi_parser.hpp
--   Engine/Geometry      graphics/geometry.hpp; Clip the proofs
--   Engine/Display       graphics/eink_display.hpp; Region and Flashes the proofs
--   Engine/Pixmap        graphics/pixmap.hpp; Pixels the proofs
--   Engine/Font          graphics/font_renderer.hpp; Drawing and Loading the proofs
--   Engine/Render        terminal/terminal_session.hpp, `render`; Cells and Shown the proofs
--   Engine/Input         input/key_catalog.hpp, input/input_manager.hpp
--   Engine/Help          help/help_types.hpp, help/help_screen.hpp, help/help_command_tracker.hpp,
--                        help/help_controller.hpp; Safety and Typed the proofs
--   Engine/App           app/application.hpp, events and frames; Modal, Shown and Frame
--                        the proofs
--   Engine/Run           app/application.hpp, the callbacks of `run`; Safe and Closing the proofs
--   Engine/Startup       app/application.hpp, `init`
--   Engine/Buffer        core/byte_buffer.hpp; Contents and Shift the proofs
--   Engine/Tests         runs of the C++ program on concrete values
--
-- Dynamic strings (dynstring.c) are the growing buffers that the program collects text in. A handle is
-- an optional record `Dynstr`, NULL being `none`. The allocator and `vsnprintf` are not part of the
-- repository: they are parameters, `Allocator` and `Formatter`, and theorems name what the C library
-- promises of them (`IsAllocator`, `IsFormatter`). Sizes are numbers without an upper limit.
--
-- A configuration file (config.c) is read line by line into sections of keys and values. `Parser` is
-- the list of sections, the newest first, and the name of the current one, which stands for the
-- pointer. A read behind the end of a line is `none`; what an included file does to the sections is a
-- parameter. `calloc` is taken to succeed.
--
-- The event loop (myts.c) is a function on the two lists of sessions and a world: a handler is a
-- parameter that gives its result, its session, the arguments and the world behind the call, and the
-- sessions it has made. `select`, `wait3` and the clock are parameters too. A round is total; the loop
-- itself never returns, and theorems speak of any number of rounds. Terminal/Shell/Served has
-- `handle_shell` as such a handler.
--
-- A pixmap (pixop.c) is its size and the bytes of its surface; `pix_blt` reads and stores byte by
-- byte, and an access outside a surface is a fault. Sizes and places are not negative; a negative
-- width, which stands for the size of the source, is `none`.
--
-- The launchpad (launchpad.c) is the record `LpState`. A pointer to a session is a number, under which
-- `shells` has the session, or `none` where there is none or no more; following such a pointer, a null
-- pointer, or an index outside a table is a fault. What is drawn is a list of `Draw`: characters with
-- their places, and areas to update; the size of a character of the font is a parameter. Offsets and
-- sizes of the configuration are numbers from 0, and a quotient of a difference that would be negative
-- is 0. A `char` has no sign, as on the machine of the program. `launchpad_init`, which reads the
-- configuration, is a parameter where a restart calls it.
--
-- The C++ program (Engine). Coordinates are whole numbers, which stand for `int` that do not overflow;
-- sizes of sessions, surfaces and glyphs are numbers from 0. An access outside a vector is `none`.
-- Parameters are the region that the help has drawn, `realloc`, what `atoi` gives for a number that
-- no `int` holds, and the comparison of a share of the screen, of `float` type, with its threshold.
-- A code point and an offset of a font have 32 bits, as the sizes of a byte buffer. `write` takes
-- all bytes that it is given. The drawing on the canvas is not part of `render_frame`; the calls of
-- the driver are values, `Update`.
--
-- Loops. The loop of `dsprintf` and the scroll loop of `page_append` run on a fuel of 2 rounds, the
-- loop of `page_append` on as many rounds as there are bytes; these bounds are proved to be enough.
-- The loops of ESC [ L and ESC [ M count their argument down.
--
-- Not modelled: the reading of the configuration (`cfg_read`, `launchpad_init` but for the
-- duplicates of its table), the table of key sequences that it builds (`build_seq`, `lookup_key`),
-- `main` and `launchpad_parse`, fonts and display (font.c, screen.c), and the log output: calls of
-- the operating system, drawing on a device, and parts that only connect these. The mark `modified`
-- of a session is a field of `Shell` and no part of the screen. Of the C++ program the event loop,
-- the owners of descriptors, the log, the counters, the driver of the device, the fixed texts of the
-- help and of the overlay, and the start of the shell are left out.
pub mod Base
pub mod Config
pub mod Dynstring
pub mod Engine
pub mod Events
pub mod Launchpad
pub mod Pixop
pub mod Terminal
