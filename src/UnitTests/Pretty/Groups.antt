-- ===== src/UnitTests/Pretty/Groups.antt =====
-- The unit tests of crates/loi-output/src/pretty.rs on groups of lookups.
use loi.Prelude.{
  ◌&&◌, not, ◌≡◌, refl, Bool, true, false, some, List, map, [], ◌∷◌, length, all, ◌==◌,
}
use loi.Prelude.Int.{pos}
use loi.Prelude.Text.{Text, text}
use loi.Output.Style.{PrettyConfig, config_new, with_group_lookups}
use loi.Syscalls.Decoder.{file}
use loi.Output.Pretty.{burst_prefix}
use loi.UnitTests.Support.{trim_end, contains, lines, at_line}
use loi.UnitTests.Pretty.{Case, enoent_openat, written_all, on_text, start}

-- A later line of a group.
abbrev goes_on : Text → Bool
goes_on line = not (contains line (text "[1234]")) && contains line (trim_end burst_prefix)

abbrev pretty_group_same_basename_tree_prefix : Bool
pretty_group_same_basename_tree_prefix =
    let cases = map (enoent_openat (pos 1234)) (
      text "/lib/x86_64-linux-gnu/libc.so.6"
      ∷ text "/usr/lib/libc.so.6"
      ∷ text "/usr/local/lib/libc.so.6"
      ∷ []) in
    on_text (written_all (config_new false) (some file) cases start) (λ out.
      (length (lines out) == 3)
      && (at_line (lines out) 0 (λ line. contains line (text "[1234]"))
          && (at_line (lines out) 1 goes_on && at_line (lines out) 2 goes_on)))

-- Two lookups, and an assertion on the second line.
abbrev second_of : PrettyConfig → Case → Case → (Text → Bool) → Bool
second_of cfg first second p =
    on_text (written_all cfg (some file) (first ∷ second ∷ []) start)
      (λ out. at_line (lines out) 1 p)

abbrev pretty_group_resets_on_basename_change : Bool
pretty_group_resets_on_basename_change =
    second_of (config_new false) (enoent_openat (pos 1234) (text "/usr/lib/libc.so.6"))
      (enoent_openat (pos 1234) (text "/usr/lib/libm.so.6"))
      (λ line. contains line (text "[1234]") && not (contains line (trim_end burst_prefix)))

abbrev pretty_group_resets_on_pid_change : Bool
pretty_group_resets_on_pid_change =
    second_of (config_new false) (enoent_openat (pos 1234) (text "/usr/lib/libc.so.6"))
      (enoent_openat (pos 5678) (text "/usr/lib/libc.so.6")) (λ line. contains line (text "[5678]"))

abbrev pretty_no_group_when_opted_out : Bool
pretty_no_group_when_opted_out =
    second_of (with_group_lookups false (config_new false))
      (enoent_openat (pos 1234) (text "/a/libc.so.6"))
      (enoent_openat (pos 1234) (text "/b/libc.so.6"))
      (λ line. contains line (text "[1234]") && not (contains line (trim_end burst_prefix)))

abbrev suite : List Bool
suite =
    pretty_group_same_basename_tree_prefix ∷ pretty_group_resets_on_basename_change
    ∷ pretty_group_resets_on_pid_change ∷ pretty_no_group_when_opted_out ∷ []

suite_passes : all (λ t. t) suite ≡ true
unfolding written_all config_new with_group_lookups
suite_passes = refl
