-- ===== src/UnitTests/Pretty/Columns.antt =====
-- The unit tests of crates/loi-output/src/pretty.rs on lines and columns.
use loi.Prelude.{
  ◌&&◌, not, ◌≡◌, refl, Bool, true, false, none, List, [], ◌∷◌, ◌++◌, length, all, ◌==◌,
}
use loi.Prelude.Int.{pos, negsuc}
use loi.Prelude.Text.{text, text_beq}
use loi.Output.Style.{config_new, with_aligned, with_group_lookups}
use loi.UnitTests.Support.{
  starts_with, contains, find, ends_with_byte, lines, at_line, same_column, column_below,
}
use loi.UnitTests.Pretty.{openat_ok, open_ok, read_ok, written_all, on_text, start, render}

abbrev openat_basic_snapshot : Bool
openat_basic_snapshot = render openat_ok false (λ line.
    text_beq line
      (text "[1234] openat(AT_FDCWD, \"/etc/hosts\", O_RDONLY|O_CLOEXEC, 0o0) = 3 <12us>\n"))

abbrev errno_name_appears_for_negative_ret : Bool
errno_name_appears_for_negative_ret =
    let (ev, decoded) = openat_ok in
    render (record ev { ret = negsuc 1 }, record decoded { ret = negsuc 1 }) false
      (λ line.
        contains line (text "-2 ENOENT") && contains line (text "(No such file or directory)"))

abbrev color_absent_when_disabled : Bool
color_absent_when_disabled = render openat_ok false (λ line. not (contains line (27 ∷ [])))

abbrev color_present_when_enabled : Bool
color_present_when_enabled = render openat_ok true (λ line. contains line (27 ∷ []))

abbrev line_terminates_with_newline : Bool
line_terminates_with_newline = render openat_ok false (λ line. ends_with_byte line 10)

-- Three lines, and the column of the bracket in the last two.
abbrev pretty_align_two_names : Bool
pretty_align_two_names =
    let cfg = with_group_lookups false (config_new false) in
    let cases = open_ok (pos 1234) ∷ openat_ok ∷ open_ok (pos 1234) ∷ [] in
    on_text (written_all cfg none cases start) (λ out.
      let shown =
        text "[1234] open(\"/etc/hosts\", O_RDONLY) = 3 <7us>\n"
        ++ (text "[1234] openat(AT_FDCWD, \"/etc/hosts\", O_RDONLY|O_CLOEXEC, 0o0) = 3 <12us>\n"
            ++ text "[1234] open  (\"/etc/hosts\", O_RDONLY) = 3 <7us>\n") in
      text_beq out shown
      && at_line (lines out) 2 (λ third.
        at_line (lines out) 1
          (λ second. same_column (find third (text "(")) (find second (text "(")))))

abbrev pretty_align_pid_widens : Bool
pretty_align_pid_widens =
    let cases = read_ok (pos 1) ∷ read_ok (pos 99999) ∷ [] in
    on_text (written_all (config_new false) none cases start) (λ out.
      (length (lines out) == 2)
      && at_line (lines out) 0 (λ first.
        at_line (lines out) 1
          (λ second. column_below (find first (text "read")) (find second (text "read")))))

abbrev pretty_align_off_when_opted_out : Bool
pretty_align_off_when_opted_out =
    let cfg = with_group_lookups false (with_aligned false (config_new false)) in
    on_text (written_all cfg none (open_ok (pos 1234) ∷ openat_ok ∷ []) start) (λ out.
      (length (lines out) == 2)
      && (at_line (lines out) 0 (λ first. starts_with first (text "[1234] open("))
          && at_line (lines out) 1 (λ second. starts_with second (text "[1234] openat("))))

abbrev suite : List Bool
suite =
    openat_basic_snapshot ∷ errno_name_appears_for_negative_ret ∷ color_absent_when_disabled
    ∷ color_present_when_enabled ∷ line_terminates_with_newline ∷ pretty_align_two_names
    ∷ pretty_align_pid_widens ∷ pretty_align_off_when_opted_out ∷ []

suite_passes : all (λ t. t) suite ≡ true
unfolding written_all config_new with_aligned with_group_lookups
suite_passes = refl
