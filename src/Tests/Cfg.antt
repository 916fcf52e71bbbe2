-- ===== src/Tests/Cfg.antt =====
-- A configuration with comments, a multi-line value and a duplicate section.
use mcu_updater.Base.{All, ◌⊎◌, ◌≡◌, refl, true, false, some, [], ◌∷◌}
use mcu_updater.Base.Text.{Text, codes, is_space, lstrip, rstrip, strip, text_eq, starts_with}
use mcu_updater.Base.Result.{ok, err}
use mcu_updater.Cfg.Line.{
  split_at, is_header_end, section_match, option_match, is_comment, cut_comment,
  strip_inline_comment, is_blank, is_continuation, lines_from, splitlines,
}
use mcu_updater.Cfg.Parse.{
  find_option, find_section, file_option, end_option, file_section, end_section, has_text,
  note_duplicate, begin_section, extended, begin_option, read_body, read_line, read_lines, parse,
}
use mcu_updater.Cfg.Render.{single, stripped, has_newline}
use mcu_updater.Cfg.Doc.{
  Doc, of_text, frozen_document, freeze, get, get_in, get_list, get_csv, parts_from, not_empty,
  section_names, names_under, is_under, set, remove_option, rename_section, remove_section,
  join_lines, ends_with_newline, render,
}
use mcu_updater.Cfg.Written.{IsKey, IsPlain, is_key, no_sign, starts_solid}
use mcu_updater.Cfg.Saved.{is_unbroken, are_lines, of_text-render}
use mcu_updater.Cfg.Edits.{get-set, edit-freeze}
use mcu_updater.Cfg.Span.{AllPlaced}
use mcu_updater.Cfg.Sited.{parse-AllPlaced}

abbrev file : Text
file =
    codes
      "# boards\n[type ebb]  # toolhead\nserials:\n    abc  # EBBT0\n    # spare\n    def\nchip: stm32  ; g0\n\n[updater]\nunits = a, b c\n"

abbrev doc : Doc
doc = of_text file

abbrev ebb : Text
ebb = codes "type ebb"

reads :
    (get_list doc ebb (codes "serials") ≡ codes "abc" ∷ codes "def" ∷ [])
    × (get doc ebb (codes "chip") ≡ some (codes "stm32"))
    × (get_csv doc (codes "updater") (codes "units")
        ≡ some (codes "a" ∷ codes "b" ∷ codes "c" ∷ []))
    × (section_names doc (some (codes "type")) ≡ ebb ∷ [])
    × (render doc ≡ file)
unfolding of_text get get_in get_list get_csv parts_from not_empty section_names names_under
    is_under parse find_option find_section file_option end_option file_section end_section has_text
    note_duplicate begin_section extended begin_option read_body read_line read_lines split_at
    is_header_end section_match option_match is_comment cut_comment strip_inline_comment is_blank
    is_continuation lines_from splitlines stripped is_space lstrip rstrip strip text_eq starts_with
    render join_lines ends_with_newline
reads = (refl, refl, refl, refl, refl)

abbrev chip : Text
chip = codes "chip"

abbrev board : Text
board = codes "rp2040"

abbrev short : Doc
short = record {
  lines = codes "[type ebb]" ∷ codes "serials:" ∷ codes "  abc" ∷ codes "chip: stm32" ∷ [];
  frozen = false;
}

short-are_lines : are_lines short.lines ≡ true
unfolding are_lines is_unbroken
short-are_lines = refl

chip_read : get doc ebb chip ≡ some (codes "stm32")
unfolding of_text get get_in parse find_option find_section file_option end_option file_section
    end_section has_text note_duplicate begin_section extended begin_option read_body read_line
    read_lines split_at is_header_end section_match option_match is_comment cut_comment
    strip_inline_comment is_blank is_continuation lines_from splitlines is_space lstrip rstrip strip
    text_eq
chip_read = refl

chip-IsKey : IsKey chip
unfolding IsKey is_key no_sign rstrip is_space
chip-IsKey = (refl, refl)

board-IsPlain : IsPlain board
unfolding IsPlain starts_solid rstrip cut_comment is_space
board-IsPlain = (refl, refl, refl)

board_line : has_newline board ≡ false
unfolding has_newline
board_line = refl

get-set_example :
    (after : Doc) × (set ebb chip (single board) doc ≡ ok after) × (get after ebb chip ≡ some board)
unfolding of_text text_eq
get-set_example =
    get-set doc ebb chip board (codes "stm32") ebb chip refl chip_read chip-IsKey board-IsPlain
      board_line

edit-freeze_example :
    (set ebb chip (single board) (freeze short) ≡ err frozen_document)
    × ((remove_option ebb chip (freeze short) ≡ ok (false, freeze short))
        ⊎ (remove_option ebb chip (freeze short) ≡ err frozen_document))
    × ((rename_section ebb board (freeze short) ≡ ok (false, freeze short))
        ⊎ (rename_section ebb board (freeze short) ≡ err frozen_document))
    × ((remove_section ebb (freeze short) ≡ ok (false, freeze short))
        ⊎ (remove_section ebb (freeze short) ≡ err frozen_document))
    × (get (freeze short) ebb chip ≡ get short ebb chip)
edit-freeze_example = edit-freeze short ebb chip board (single board)

of_text-render_example : of_text (render short) ≡ short
of_text-render_example = of_text-render short short-are_lines

parse-AllPlaced_example : All (AllPlaced short.lines) (parse short.lines).sections
parse-AllPlaced_example = parse-AllPlaced short.lines
