-- ===== src/UnitTests/Json.antt =====
-- The unit tests of crates/loi-output/src/json.rs and of `arg_to_json`. A test
-- that parses a line to look a member up here looks for the member in the line.
use loi.Prelude.{not, ◌≡◌, refl, Bool, true, false, none, List, [], ◌∷◌, ◌++◌, all, ◌==◌}
use loi.Prelude.Int.{ℤ, pos, negsuc}
use loi.Prelude.Print.{hex}
use loi.Prelude.Result.{NoError, ok, err, panic}
use loi.Prelude.Text.{Text, text, text_beq}
use loi.Prelude.Word.{dev}
use loi.Core.Event.{new, serialize_duration}
use loi.Syscalls.Utf8.{from_utf8_lossy, lossy_from, start}
use loi.Syscalls.Decoder.{DecodedArg, path, flags, bytes, ptr, argv}
use loi.Output.{errno_of_ret, arg_to_json, event_to_json}
use loi.Output.JsonLine.{Serde, write_event}
use loi.Output.Stream.{buffer}
use loi.Scenarios.Compact.{number_text, compact}
use loi.UnitTests.Support.{linux_errnos, without_last, contains}
use loi.UnitTests.Pretty.{Case, openat_ok}

-- A failure of the formatter: the duration is too long.
data Failed : Type 0 where
  too_long : Failed

abbrev appending : Serde (buffer Failed) compact
appending = record {
  Failure = NoError;
  to_writer = λ v o. (none, o ++ v);
  other = λ e. elim e [ ];
  invalid_data = too_long;
}

-- `write_event(…).expect("write to Vec succeeds")`, with an assertion on the text.
unfoldable on_line : Case → (Text → Bool) → Bool
unfolding write_event event_to_json arg_to_json errno_of_ret serialize_duration number_text hex new
    from_utf8_lossy lossy_from start
on_line (ev, decoded) p =
    let (res, line) =
      write_event (buffer Failed) compact appending dev linux_errnos ev decoded [] in
    elim res [ ok u ↦ p line | err e ↦ false | panic ↦ false ]

abbrev with_ret : ℤ → Case → Case
with_ret r (ev, decoded) = (record ev { ret = r }, record decoded { ret = r })

abbrev no_interior_newline_in_record : Bool
no_interior_newline_in_record =
    on_line openat_ok (λ line. all (λ b. not (b == 10)) (without_last line))

abbrev openat_line : Text
openat_line =
    text "{\"args\":[{\"name\":\"dirfd\",\"value\":\"AT_FDCWD\"},"
    ++ (text "{\"name\":\"pathname\",\"value\":\"/etc/hosts\"},"
        ++ (text "{\"name\":\"flags\",\"value\":[\"O_RDONLY\",\"O_CLOEXEC\"]},"
            ++ (text "{\"name\":\"mode\",\"value\":0}],\"duration\":12000,\"pid\":1234,\"ret\":3,"
                ++ text "\"syscall_name\":\"openat\",\"syscall_nr\":257}\n")))

-- The stored line is crates/loi-output/src/snapshots/loi_output__json__tests__json_openat.snap.
abbrev snapshot_of_openat : Bool
snapshot_of_openat = on_line openat_ok (text_beq openat_line)

abbrev errno_name_present_on_negative_ret : Bool
errno_name_present_on_negative_ret =
    on_line (with_ret (negsuc 12) openat_ok)
      (λ line. contains line (text "\"errno_name\":\"EACCES\""))

abbrev errno_name_absent_on_success : Bool
errno_name_absent_on_success =
    on_line openat_ok (λ line. not (contains line (text "\"errno_name\"")))

abbrev duration_is_nanoseconds_number : Bool
duration_is_nanoseconds_number =
    on_line openat_ok (λ line. contains line (text "\"duration\":12000,"))

-- `assert_eq!(arg_to_json(&arg), json!(…))`
unfoldable json_of : DecodedArg → Text → Bool
unfolding arg_to_json number_text hex from_utf8_lossy lossy_from start
json_of arg v = text_beq (arg_to_json compact arg) v

abbrev arg_to_json_path_is_string : Bool
arg_to_json_path_is_string = json_of (path (text "/tmp")) (compact.string (text "/tmp"))

abbrev arg_to_json_flags_is_array : Bool
arg_to_json_flags_is_array =
    json_of (flags (text "O_RDONLY" ∷ [])) (compact.array (compact.string (text "O_RDONLY") ∷ []))

abbrev arg_to_json_hex_is_string_with_prefix : Bool
arg_to_json_hex_is_string_with_prefix = json_of (DecodedArg.hex 0x42) (compact.string (text "0x42"))

abbrev arg_to_json_ptr_zero_is_null : Bool
arg_to_json_ptr_zero_is_null = json_of (ptr 0) compact.null

abbrev arg_to_json_ptr_nonzero_is_string : Bool
arg_to_json_ptr_nonzero_is_string = json_of (ptr 0x1000) (compact.string (text "0x1000"))

abbrev arg_to_json_argv_is_string_array : Bool
arg_to_json_argv_is_string_array =
    json_of (argv (text "a" ∷ text "b" ∷ []))
      (compact.array (compact.string (text "a") ∷ compact.string (text "b") ∷ []))

abbrev arg_to_json_bytes_object : Bool
arg_to_json_bytes_object = json_of (bytes (text "hi") 5) (
    compact.object (
      (text "inline", compact.string (text "hi"))
      ∷ (text "total", compact.number (pos 5))
      ∷ (text "truncated", compact.bool true)
      ∷ []))

abbrev suite : List Bool
suite =
    no_interior_newline_in_record ∷ snapshot_of_openat ∷ errno_name_present_on_negative_ret
    ∷ errno_name_absent_on_success ∷ duration_is_nanoseconds_number ∷ arg_to_json_path_is_string
    ∷ arg_to_json_flags_is_array ∷ arg_to_json_hex_is_string_with_prefix
    ∷ arg_to_json_ptr_zero_is_null ∷ arg_to_json_ptr_nonzero_is_string
    ∷ arg_to_json_argv_is_string_array ∷ arg_to_json_bytes_object ∷ []

suite_passes : all (λ t. t) suite ≡ true
unfolding on_line json_of
suite_passes = refl
