-- ===== src/UnitTests/Filter.antt =====
-- The unit tests of crates/loi-filter/src/lib.rs. The stand-in for the crate globset knows the star,
-- which matches any text, and refuses an open bracket.
use loi.Prelude.{
  ◌&&◌, ◌||◌, not, ◌≡◌, refl, Bool, true, false, Option, none, some, List, [], ◌∷◌, all, any, ◌==◌,
  if◌then◌else◌,
}
use loi.Prelude.Int.{ℤ, pos, negsuc}
use loi.Prelude.Result.{ok, err}
use loi.Prelude.Text.{Text, text, text_beq}
use loi.Core.Event.{SyscallEvent, new}
use loi.Syscalls.Decoder.{DecodedCall, path, as_path, fd, at_fdcwd, num}
use loi.Filter.{
  Globset, invalid_glob, Filter, trim, strip_all, split_from, add_globs, compile_globs, parse,
  matches_event, matches_decoded, needs_decode, path_args,
}
use loi.UnitTests.Support.{is_ok}
use loi.UnitTests.Pretty.{no_args}

-- Whether some end of the text passes.
abbrev some_end : (Text → Bool) → Text → Bool
some_end p [] = p []
some_end p (b ∷ s) = p (b ∷ s) || some_end p s

abbrev glob_matches : Text → Text → Bool
glob_matches [] [] = true
glob_matches [] (b ∷ s) = false
glob_matches (a ∷ p) [] = a == b'*' && glob_matches p []
glob_matches (a ∷ p) (b ∷ s) = elim (a == b'*') [
  | true ↦ some_end (glob_matches p) (b ∷ s)
  | false ↦ a == b && glob_matches p s
]

abbrev star_globs : Globset
star_globs = record {
  Glob = Text;
  GlobSet = List Text;
  Error = Text;
  glob_new = λ p. if any (λ b. b == b'[') p then err p else ok p;
  build = λ gs. ok gs;
  is_match = λ gs t. any (λ p. glob_matches p t) gs;
  error_glob = λ failed. some failed;
}

abbrev ev : Text → ℤ → SyscallEvent
ev name ret = new (pos 1) 0 name no_args ret 0

abbrev decoded_with_path : Text → DecodedCall
decoded_with_path p = record {
  args = (text "dirfd", fd at_fdcwd) ∷ (text "pathname", path p) ∷ [];
  ret = pos 0;
}

abbrev decoded_close : DecodedCall
decoded_close = record { args = (text "fd", fd (num 3)) ∷ []; ret = pos 0 }

-- An assertion on the filter that the flags give; it fails where parsing does.
unfoldable with_filter : Option Text → Bool → Option Text → (Filter star_globs → Bool) → Bool
unfolding parse compile_globs add_globs split_from strip_all trim
with_filter syscalls only_fail paths p = is_ok p (parse star_globs syscalls only_fail paths)

-- The error names the pattern.
unfoldable refused_for : Text → Option Text → Bool → Option Text → Bool
unfolding parse compile_globs add_globs split_from strip_all trim
refused_for expected syscalls only_fail paths = elim (parse star_globs syscalls only_fail paths) [
  | err failed ↦ elim failed [ invalid_glob pattern e ↦ text_beq pattern expected ]
  | _ ↦ false
]

unfoldable passes : Filter star_globs → Text → ℤ → Bool
unfolding matches_event new
passes f name ret = matches_event star_globs f (ev name ret)

unfoldable shows : Filter star_globs → DecodedCall → Bool
unfolding matches_decoded path_args as_path
shows f decoded = matches_decoded star_globs f decoded

abbrev parse_glob_matches_open_star_and_read_not_write : Bool
parse_glob_matches_open_star_and_read_not_write =
    with_filter (some (text "open*,read")) false none (λ f.
      passes f (text "openat") (pos 0)
      && (passes f (text "open") (pos 0)
          && (passes f (text "read") (pos 0) && not (passes f (text "write") (pos 0)))))

abbrev only_fail_rejects_non_negative_ret : Bool
only_fail_rejects_non_negative_ret = with_filter none true none (λ f.
    passes f (text "openat") (negsuc 0)
    && (not (passes f (text "openat") (pos 0)) && not (passes f (text "openat") (pos 42))))

abbrev invalid_syscall_glob_returns_error : Bool
invalid_syscall_glob_returns_error =
    refused_for (text "[invalid") (some (text "[invalid")) false none

abbrev empty_filter_matches_everything : Bool
empty_filter_matches_everything = with_filter none false none (λ f.
    passes f (text "openat") (pos 0)
    && (passes f (text "write") (negsuc 0) && passes f (text "syscall_999") (pos 7)))

abbrev empty_pattern_string_is_treated_as_no_filter : Bool
empty_pattern_string_is_treated_as_no_filter =
    with_filter (some []) false none (λ f. passes f (text "anything") (pos 0))

abbrev whitespace_and_empty_segments_skipped : Bool
whitespace_and_empty_segments_skipped =
    with_filter (some (text " read , , write ")) false none (λ f.
      passes f (text "read") (pos 0)
      && (passes f (text "write") (pos 0) && not (passes f (text "open") (pos 0))))

abbrev syscall_filter_and_only_fail_compose : Bool
syscall_filter_and_only_fail_compose = with_filter (some (text "openat")) true none (λ f.
    passes f (text "openat") (negsuc 0)
    && (not (passes f (text "openat") (pos 0)) && not (passes f (text "read") (negsuc 0))))

abbrev path_filter_accepts_decoded_with_matching_path : Bool
path_filter_accepts_decoded_with_matching_path =
    with_filter none false (some (text "/etc/*"))
      (λ f. shows f (decoded_with_path (text "/etc/passwd")))

abbrev path_filter_rejects_decoded_with_non_matching_path : Bool
path_filter_rejects_decoded_with_non_matching_path =
    with_filter none false (some (text "/etc/*"))
      (λ f. not (shows f (decoded_with_path (text "/tmp/x"))))

abbrev invalid_path_glob_returns_error : Bool
invalid_path_glob_returns_error = refused_for (text "[invalid") none false (some (text "[invalid"))

abbrev empty_path_filter_passes_everything : Bool
empty_path_filter_passes_everything =
    with_filter none false none
      (λ f. shows f (decoded_with_path (text "/etc/passwd")) && shows f decoded_close)

abbrev path_filter_skips_syscalls_with_no_path_arg : Bool
path_filter_skips_syscalls_with_no_path_arg =
    with_filter none false (some (text "/etc/*")) (λ f. not (shows f decoded_close))

abbrev path_filter_accepts_any_of_multiple_globs : Bool
path_filter_accepts_any_of_multiple_globs =
    with_filter none false (some (text "/etc/*,/tmp/*")) (λ f.
      shows f (decoded_with_path (text "/etc/passwd"))
      && (shows f (decoded_with_path (text "/tmp/x"))
          && not (shows f (decoded_with_path (text "/var/log/x")))))

abbrev needs_decode_true_only_when_path_filter_set : Bool
needs_decode_true_only_when_path_filter_set =
    with_filter none false none (λ f. not (needs_decode star_globs f))
    && (with_filter (some (text "openat")) true none (λ f. not (needs_decode star_globs f))
        && with_filter none false (some (text "/etc/*")) (λ f. needs_decode star_globs f))

abbrev suite : List Bool
suite =
    parse_glob_matches_open_star_and_read_not_write ∷ only_fail_rejects_non_negative_ret
    ∷ invalid_syscall_glob_returns_error ∷ empty_filter_matches_everything
    ∷ empty_pattern_string_is_treated_as_no_filter ∷ whitespace_and_empty_segments_skipped
    ∷ syscall_filter_and_only_fail_compose ∷ path_filter_accepts_decoded_with_matching_path
    ∷ path_filter_rejects_decoded_with_non_matching_path ∷ invalid_path_glob_returns_error
    ∷ empty_path_filter_passes_everything ∷ path_filter_skips_syscalls_with_no_path_arg
    ∷ path_filter_accepts_any_of_multiple_globs ∷ needs_decode_true_only_when_path_filter_set ∷ []

suite_passes : all (λ t. t) suite ≡ true
unfolding with_filter refused_for passes shows needs_decode
suite_passes = refl
