-- ===== src/Scenarios/Filtering.antt =====
-- The theorems on the registry and on filters at a table of two calls and globs that are the text
-- that they match.
use loi.Prelude.{
  ℕ, ◌≡◌, refl, ap, sym, any, Option, some, true, List, [], ◌∷◌, ◌==◌, if◌then◌else◌, arith,
}
use loi.Prelude.Tests.{nat_eq}
use loi.Prelude.Int.{pos, negsuc}
use loi.Prelude.Result.{ok, err, ok_injective}
use loi.Prelude.Text.{Text, text, text_beq}
use loi.Prelude.Word.{dev}
use loi.Core.Event.{SyscallEvent}
use loi.Syscalls.Decoder.{DecodedCall, path, as_path}
use loi.Syscalls.Decoders.Stat
use loi.Syscalls.Decoders.Processes.{x86_64}
use loi.Syscalls.Registry.{Table, Registry, sysno_from_nr, decoder, with_default_decoders}
use loi.Syscalls.Registry.Lookup.{IsTable, decoder-with_default_decoders}
use loi.Filter.{
  Globset, Filter, trim, strip_all, split_from, add_globs, compile_globs, parse, matches_event,
  matches_decoded, needs_decode, path_args,
}
use loi.Filter.Gates.{IsGlobset, matches_event-parse, matches_decoded-parse}
use loi.Scenarios.Host.{call_on_page}

-- The calls by their numbers, on x86_64.
abbrev pub numbers : Table ℕ
numbers = record {
  of_number = λ n. some n;
  name_of = λ n. if n == 1 then text "write" else text "other";
  id = λ n. pos n;
  openat = 257;
  read = 0;
  write = 1;
  close = 3;
  fstat = 5;
  statx = 332;
  mmap = 9;
  mprotect = 10;
  execve = 59;
  clone = 56;
  wait4 = 61;
  stat = 4;
}

pub numbers-IsTable : IsTable numbers
numbers-IsTable = record { id_not_neg = λ s. refl; of_number_id = λ s n h. ground arith }

decoder-with_default_decoders_example :
    (r : Registry numbers) × (with_default_decoders numbers dev x86_64 ≡ ok r)
    × (decoder numbers 4 r ≡ some Stat.stat)
unfolding sysno_from_nr
decoder-with_default_decoders_example =
    decoder-with_default_decoders numbers numbers-IsTable dev x86_64 4

-- A glob is a text, but for one with a bracket, and matches itself.
abbrev pub literal_globs : Globset
literal_globs = record {
  Glob = Text;
  GlobSet = List Text;
  Error = Text;
  glob_new = λ p. if text_beq p (text "[") then err p else ok p;
  build = λ gs. ok gs;
  is_match = λ gs t. any (λ p. text_beq p t) gs;
  error_glob = λ e. some e;
}

abbrev promised : IsGlobset literal_globs
promised = record {
  one = text_beq;
  any_of = λ gs set h t. ap (any (λ p. text_beq p t)) (sym (ok_injective h));
}

abbrev pub only_write : Filter literal_globs
only_write = record {
  syscalls = some (text "read" ∷ text "write" ∷ []);
  only_fail = true;
  paths = some (text "/etc" ∷ []);
}

abbrev pub failed_write : SyscallEvent
failed_write = record {
  pid = pos 7;
  syscall_nr = 1;
  syscall_name = text "write";
  args = call_on_page.args;
  ret = negsuc 8;
  duration = 5;
}

abbrev names_flag : Option Text
names_flag = some (text "read, write,")

matches_event-parse_example : matches_event literal_globs only_write failed_write ≡ true
unfolding parse compile_globs add_globs trim strip_all split_from
matches_event-parse_example =
    matches_event-parse literal_globs promised names_flag true (some (text "/etc")) only_write
      failed_write refl

abbrev stat_etc : DecodedCall
stat_etc = record { args = (text "pathname", path (text "/etc")) ∷ []; ret = pos 0 }

matches_decoded-parse_example :
    (needs_decode literal_globs only_write ≡ true)
    × (matches_decoded literal_globs only_write stat_etc ≡ true)
unfolding parse compile_globs add_globs trim strip_all split_from path_args as_path
matches_decoded-parse_example =
    matches_decoded-parse literal_globs promised names_flag true (some (text "/etc")) only_write
      stat_etc refl
