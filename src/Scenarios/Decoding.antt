-- ===== src/Scenarios/Decoding.antt =====
-- The theorems on decoders (crates/loi-syscalls) at concrete calls.
use loi.Prelude.{ℕ, ◌≡◌, refl, true, false, List, [], ◌∷◌, arith}
use loi.Prelude.Tests.{nat_eq}
use loi.Prelude.Int.{pos}
use loi.Prelude.Result.{ok}
use loi.Prelude.Text.{Text, text}
use loi.Memory.{read_bytes}
use loi.Syscalls.Utf8.{is_utf8, decode_utf8, from_utf8_lossy, decode_utf8_lem}
use loi.Syscalls.Decoder.{
  num, decode_fd, decode_flags, prot_table, c_int_to_u64, DecodeCtx, DecodedArg, int, DecodedCall,
}
use loi.Syscalls.Decoder.Flags.{names, names-decode_flags}
use loi.Syscalls.Decoders.Files.{
  decode_open_flags, access_mode_name, push_open_flags, open_flags_table, o_tmpfile_mask,
  o_directory_mask, read_decode, write_decode, buffer_call,
}
use loi.Syscalls.Decoders.OpenFlags.{tmpfile_excludes_directory}
use loi.Syscalls.Decoders.CloneFlags.{clone_io_never_named}
use loi.Syscalls.Decoders.Processes.{clone_table, wait4_decode}
use loi.Syscalls.Decoders.Reads.{IsCaptured, read_captures, write_captures}
use loi.Syscalls.Decoders.Waits.{wait4_pid_unsigned}
use loi.Scenarios.Host.{linux_x86_64, host, call_on_page}

-- The bytes of the letter é.
abbrev e_acute : Text
e_acute = 195 ∷ 169 ∷ []

decode_utf8_lem_example :
    (is_utf8 (decode_utf8 (255 ∷ e_acute)) ≡ true)
    × (decode_utf8 (255 ∷ e_acute) ≡ from_utf8_lossy (255 ∷ e_acute))
decode_utf8_lem_example = decode_utf8_lem (255 ∷ e_acute)

names-decode_flags_example :
    names (text "PROT_EXEC") (decode_flags 5 (prot_table linux_x86_64)) ≡ true
unfolding prot_table c_int_to_u64
names-decode_flags_example =
    names-decode_flags (text "PROT_EXEC") 5 (prot_table linux_x86_64)
      (omega arith, (omega arith, (omega arith, tt)))

tmpfile_excludes_directory_example :
    names (text "O_DIRECTORY") (decode_open_flags linux_x86_64 0x410002) ≡ false
unfolding decode_open_flags access_mode_name push_open_flags open_flags_table c_int_to_u64
    o_directory_mask o_tmpfile_mask
tmpfile_excludes_directory_example = tmpfile_excludes_directory linux_x86_64 0x410002 refl

clone_io_never_named_example :
    names (text "CLONE_IO") (decode_flags 0x80000000 (clone_table linux_x86_64)) ≡ false
clone_io_never_named_example =
    clone_io_never_named linux_x86_64 0x80000000 (omega arith) refl (omega arith)

-- The call, decoded with its two bytes.
abbrev decoded_on_page : DecodedCall
decoded_on_page = buffer_call call_on_page (num 3) (text "aa")

read_captures_example :
    (inline : List ℕ) × (decoded_on_page ≡ buffer_call call_on_page (num 3) inline)
    × IsCaptured host call_on_page 2 inline
unfolding read_decode write_decode buffer_call read_bytes decode_fd
read_captures_example = read_captures host call_on_page decoded_on_page refl

-- The end of a file, read to an address that is not mapped.
abbrev end_of_file : DecodeCtx
end_of_file = record call_on_page { ret = pos 0; args = record call_on_page.args { arg1 = 0 } }

write_captures_example :
    (inline : List ℕ) × (decoded_on_page ≡ buffer_call call_on_page (num 3) inline)
    × IsCaptured host call_on_page 2 inline
unfolding read_decode write_decode buffer_call read_bytes decode_fd
write_captures_example = write_captures host call_on_page decoded_on_page refl

-- `wait4(-1, NULL, …)` with the upper half of the register zero.
abbrev wait_for_any : DecodeCtx
wait_for_any = record {
  pid = pos 7;
  args = record { arg0 = 4294967295; arg1 = 0; arg2 = 0; arg3 = 0; arg4 = 0; arg5 = 0 };
  ret = pos 2;
}

wait4_pid_unsigned_example :
    (rest : List (Text × DecodedArg)) × (wait4_decode host wait_for_any
      ≡ ok (record { args = (text "pid", int (pos 4294967295)) ∷ rest; ret = pos 2 }))
wait4_pid_unsigned_example = wait4_pid_unsigned host wait_for_any 0 (omega arith) refl
