-- ===== src/Console/Ansi/Colours.antt =====
-- What the escape codes mean: a colour of ANSI counts red 1, green 2 and blue 4, one of the VGA
-- blue 1, green 2 and red 4.
use ose.Prelude.{ℕ, ◌+◌, ◌-◌, ◌*◌, ◌/◌, ◌%◌, ◌<◌, ◌≡◌, ◌≢◌, arith, true, if◌then◌else◌, ◌==◌, ◌||◌}
use ose.Prelude.Int.{pos}
use ose.Console.Ansi.{
  Format, colour, bright_colour, between, switch_colour, process_graphic_escape_sequence,
}

-- Red and blue trade places.
abbrev pub swap : ℕ → ℕ
swap k = k % 2 * 4 + k / 2 % 2 * 2 + k / 4

colour_lem : (k : ℕ) → k < 8 → colour k ≡ swap k
unfolding colour
colour_lem k h = ground arith

bright_colour_lem : (k : ℕ) → k < 8 → bright_colour k ≡ 8 + swap k
unfolding bright_colour
bright_colour_lem k h = ground arith

-- What a code asks for: 0 restores the default colours, each run of eight codes sets the
-- foreground or the background, and no other code changes anything.
abbrev pub after_code : (default_format : Format) → ℕ → Format → Format
after_code default_format code f =
    if code == 0
    then default_format
    else if between 30 37 code
    then record f { foreground = swap (code - 30) }
    else if between 40 47 code
    then record f { background = swap (code - 40) }
    else if between 90 97 code
    then record f { foreground = 8 + swap (code - 90) }
    else if between 100 107 code
    then record f { background = 8 + swap (code - 100) }
    else f

switch_lem :
    (d f : Format) (code : ℕ)
    → code ≢ 0
    → (between 30 37 code || between 90 97 code || between 40 47 code || between 100 107 code)
      ≡ true
    → switch_colour d code f ≡ after_code d code f
unfolding switch_colour
switch_lem d f code h h' = ground (
  arith,
  colour_lem (code - 30),
  bright_colour_lem (code - 90),
  colour_lem (code - 40),
  bright_colour_lem (code - 100),
)

-- For every code that is not negative, an escape sequence changes the format as `after_code` says:
-- code 0 restores the default colours, codes 30 to 37, 40 to 47, 90 to 97 and 100 to 107 set the
-- foreground or background to the ANSI colour with red and blue exchanged, bright from 90 on, and
-- every other code changes nothing, 39 and 49 included.
pub process_graphic_escape_sequence_lem :
    (d f : Format) (code : ℕ) → process_graphic_escape_sequence d (pos code) f ≡ after_code d code f
unfolding process_graphic_escape_sequence
process_graphic_escape_sequence_lem d f code = ground (arith, switch_lem d f code)
