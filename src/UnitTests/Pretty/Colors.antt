-- ===== src/UnitTests/Pretty/Colors.antt =====
-- The unit tests of crates/loi-output/src/pretty.rs on colors.
use loi.Prelude.{◌&&◌, ◌||◌, not, ◌≡◌, refl, Bool, true, false, some, List, [], ◌∷◌, ◌++◌, all}
use loi.Prelude.Int.{pos}
use loi.Prelude.Text.{Text, text}
use loi.Output.Style.{config_new}
use loi.Syscalls.Decoder.{file, memory_map}
use loi.Output.Style.{with_category_colors, with_dim_lookups}
use loi.UnitTests.Support.{sgr, contains}
use loi.UnitTests.Pretty.{openat_ok, enoent_openat, mmap_ok, written, render_with}

-- `contains_color_escape`: the parameter alone, or with that for bold.
abbrev contains_color_escape : Text → Text → Bool
contains_color_escape s color =
    contains s (sgr color)
    || (contains s (sgr (text "1;" ++ color)) || contains s (sgr (color ++ text ";1")))

abbrev pretty_category_color_file_is_cyan : Bool
pretty_category_color_file_is_cyan =
    render_with openat_ok (some file) (config_new true)
      (λ line. contains_color_escape line (text "36"))

abbrev pretty_category_color_memory_is_magenta : Bool
pretty_category_color_memory_is_magenta =
    render_with (mmap_ok (pos 1234)) (some memory_map) (config_new true)
      (λ line. contains_color_escape line (text "35"))

abbrev pretty_category_colors_off_falls_back_to_cyan : Bool
pretty_category_colors_off_falls_back_to_cyan =
    let cfg = with_category_colors false (config_new true) in
    render_with (mmap_ok (pos 1234)) (some memory_map) cfg (λ line.
      not (contains_color_escape line (text "35")) && contains_color_escape line (text "36"))

abbrev pretty_dim_lookup_enoent_dims_full_line : Bool
pretty_dim_lookup_enoent_dims_full_line =
    render_with (enoent_openat (pos 1234) (text "/usr/lib/libc.so.6")) (some file) (config_new true)
      (λ line. contains line (sgr (text "2")) && not (contains_color_escape line (text "31")))

abbrev pretty_dim_off_keeps_red_errno : Bool
pretty_dim_off_keeps_red_errno =
    let cfg = with_dim_lookups false (config_new true) in
    render_with (enoent_openat (pos 1234) (text "/usr/lib/libc.so.6")) (some file) cfg
      (λ line. contains_color_escape line (text "31"))

abbrev suite : List Bool
suite =
    pretty_category_color_file_is_cyan ∷ pretty_category_color_memory_is_magenta
    ∷ pretty_category_colors_off_falls_back_to_cyan ∷ pretty_dim_lookup_enoent_dims_full_line
    ∷ pretty_dim_off_keeps_red_errno ∷ []

suite_passes : all (λ t. t) suite ≡ true
unfolding written config_new with_category_colors with_dim_lookups
suite_passes = refl
