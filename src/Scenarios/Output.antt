-- ===== src/Scenarios/Output.antt =====
-- The theorems on the sink (src/main.rs) with a writer that keeps the calls that it is given.
use loi.Prelude.{
  ◌≡◌, refl, none, some, true, false, List, [], ◌∷◌, ◌++◌, ◌==◌, arith, if◌then◌else◌,
}
use loi.Prelude.Tests.{nat_eq}
use loi.Prelude.Map.{find}
use loi.Prelude.Int.{pos, negsuc}
use loi.Prelude.Result.{ok, err, ◌>>=◌}
use loi.Prelude.Text.{text}
use loi.Prelude.Word.{dev}
use loi.Output.{ErrnoTable, errno_of_ret}
use loi.Output.Errno.{errno_of_ret_lem}
use loi.Core.Event.{SyscallEvent}
use loi.Syscalls.Decoder.{Host, DecodedCall}
use loi.Syscalls.Registry.{sysno_from_nr, decoder}
use loi.Filter.{Filter, matches_event, matches_decoded}
use loi.Cli.{
  pretty, json, ErrorKind, broken_pipe, other, Writer, SinkState, decode, fallback_decoded,
  handle_all, finish,
}
use loi.Cli.Stream.{deliver, handle_all-deliver}
use loi.Cli.Exit.{finish_first_err}
use loi.Scenarios.Host.{host}
use loi.Scenarios.Filtering.{numbers, literal_globs, failed_write}

-- A write of JSON never fails, and the last flush finds the pipe broken.
abbrev log : Writer
log = record {
  PrettyConfig = Unit;
  PrettyState = Unit;
  Out = List (SyscallEvent × DecodedCall);
  Error = ErrorKind;
  kind = λ e. e;
  write_pretty = λ ev d c cfg st o. (err other, tt, o);
  write_json = λ ev d o. (ok tt, o ++ (ev, d) ∷ []);
  flush = λ o. (some broken_pipe, o);
}

abbrev pub failures : Filter literal_globs
failures = record { syscalls = none; only_fail = true; paths = none }

abbrev empty_sink : SinkState numbers literal_globs log
empty_sink = record {
  out = [];
  format = json;
  cfg = tt;
  pretty_state = tt;
  registry = [];
  filter = failures;
  first_err = none;
  closed = false;
}

-- A call that failed, and one that did not.
abbrev pub stream : List (Host × SyscallEvent)
stream = (host, failed_write) ∷ (host, record failed_write { ret = pos 1 }) ∷ []

abbrev shown : List (SyscallEvent × DecodedCall)
shown = (failed_write, fallback_decoded failed_write) ∷ []

handle_all-deliver_example :
    handle_all numbers literal_globs log stream empty_sink
    ≡ deliver numbers literal_globs log
        ((failed_write, fallback_decoded failed_write, none) ∷ [])
        empty_sink
unfolding matches_event matches_decoded decode decoder sysno_from_nr find
handle_all-deliver_example =
    handle_all-deliver numbers literal_globs log stream empty_sink
      ((failed_write, fallback_decoded failed_write, none) ∷ []) refl

-- In the pretty format the write of the failed call fails.
abbrev pretty_sink : SinkState numbers literal_globs log
pretty_sink = record empty_sink { format = pretty }

finish_first_err_example :
    (handle_all numbers literal_globs log ((host, failed_write) ∷ stream) pretty_sink >>= λ s.
    ok (finish numbers literal_globs log s))
    ≡ ok (err other)
unfolding matches_event matches_decoded decode decoder sysno_from_nr find
finish_first_err_example =
    finish_first_err numbers literal_globs log host failed_write stream pretty_sink
      (fallback_decoded failed_write) none other refl refl refl refl refl refl refl

-- One errno: the kernel's 2.
abbrev pub errnos : ErrnoTable
errnos n = if n == 2 then some (text "ENOENT", text "No such file or directory") else none

errno_of_ret_lem_example :
    errno_of_ret dev errnos (negsuc 1) ≡ ok (some (text "ENOENT", text "No such file or directory"))
errno_of_ret_lem_example = errno_of_ret_lem dev errnos (negsuc 1) (omega arith)
