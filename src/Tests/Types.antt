-- ===== src/Tests/Types.antt =====
-- Configurations with families and types.
use mcu_updater.Base.{All, ◌≡◌, refl, List, [], ◌∷◌, ◌++◌}
use mcu_updater.Base.Text.{
  Text, codes, is_space, lstrip, rstrip, strip, lower, text_eq, starts_with,
}
use mcu_updater.Base.Result.{ok, err}
use mcu_updater.Cfg.Line.{
  split_at, is_header_end, section_match, option_match, is_comment, cut_comment,
  strip_inline_comment, is_blank, is_continuation, lines_from, splitlines,
}
use mcu_updater.Cfg.Parse.{
  find_option, find_section, file_option, end_option, file_section, end_section, has_text,
  note_duplicate, begin_section, extended, begin_option, read_body, read_line, read_lines, parse,
}
use mcu_updater.Cfg.Single.{header_names, IsSingle}
use mcu_updater.Cfg.Render.{stripped}
use mcu_updater.Cfg.Doc.{
  of_text, get, get_in, get_list, get_csv, parts_from, not_empty, section_names, names_under,
  is_under, option_names, parse_bool,
}
use mcu_updater.Types.Defs.{
  TypeEntry, has_key, family_of, put_family, text_of, flag_of, family_from, families_from,
  load_from_doc, builder_of, entry_from, entries_from, read, builder,
}
use mcu_updater.Types.Validate.{
  missing_families, mixed_builders, text, only, refuse_any, refuse_family_keys, refuse_keys,
  note_missing, note_undeclared, unique_from, validate_firmwares, validate_entry, validate_entries,
  validate, read_doc, load_doc, load,
}
use mcu_updater.Types.Buildable.{IsBuildable, load-IsBuildable}

abbrev families_text : Text
families_text =
    codes
      "[firmware klipper]\nflashers: flashtool\n[firmware knomi]\nbuilder: platformio\nflashers: platformio\n"

abbrev config : Text
config = families_text ++ codes "[type ebb]\nfirmware: klipper\n"

abbrev entries : List TypeEntry
entries = read (of_text config) (load_from_doc (of_text config))

loads : load (text config) ≡ ok entries
unfolding of_text get get_in get_list get_csv parts_from not_empty section_names names_under
    is_under option_names parse_bool parse find_option find_section file_option end_option
    file_section end_section has_text note_duplicate begin_section extended begin_option read_body
    read_line read_lines split_at is_header_end section_match option_match is_comment cut_comment
    strip_inline_comment is_blank is_continuation lines_from splitlines stripped is_space lstrip
    rstrip strip lower text_eq starts_with has_key family_of put_family text_of flag_of family_from
    families_from load_from_doc builder_of entry_from entries_from read builder only refuse_any
    refuse_family_keys refuse_keys note_missing note_undeclared unique_from validate_firmwares
    validate_entry validate_entries validate read_doc load_doc load
loads = refl

load-IsBuildable_example :
    IsSingle (header_names (of_text config).lines)
    × All (IsBuildable (load_from_doc (of_text config))) entries
load-IsBuildable_example = load-IsBuildable config entries loads

-- Every family that is not declared, once; and two builders for one type.
refuses :
    (load (
        text (
          families_text
          ++ codes "[type a]\nfirmware: klippr, klipper, klippr\n[type b]\nfirmware: rr\n"))
      ≡ err
          (missing_families ((codes "a", codes "klippr" ∷ []) ∷ (codes "b", codes "rr" ∷ []) ∷ [])))
    × (load (text (families_text ++ codes "[type a]\nfirmware: klipper, knomi\n"))
        ≡ err (mixed_builders (codes "a") (codes "klipper" ∷ codes "knomi" ∷ [])))
unfolding of_text get get_in get_list get_csv parts_from not_empty section_names names_under
    is_under option_names parse_bool parse find_option find_section file_option end_option
    file_section end_section has_text note_duplicate begin_section extended begin_option read_body
    read_line read_lines split_at is_header_end section_match option_match is_comment cut_comment
    strip_inline_comment is_blank is_continuation lines_from splitlines stripped is_space lstrip
    rstrip strip lower text_eq starts_with has_key family_of put_family text_of flag_of family_from
    families_from load_from_doc builder_of entry_from entries_from read builder only refuse_any
    refuse_family_keys refuse_keys note_missing note_undeclared unique_from validate_firmwares
    validate_entry validate_entries validate read_doc load_doc load
refuses = (refl, refl)
