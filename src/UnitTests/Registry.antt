-- ===== src/UnitTests/Registry.antt =====
-- The unit tests of crates/loi-syscalls/src/registry.rs, on x86_64.
use loi.Prelude.{
  ℕ, ◌-◌, ◌^◌, ◌&&◌, ◌≡◌, refl, Bool, true, Option, some, none, List, [], ◌∷◌, all, ◌==◌,
  if◌then◌else◌,
}
use loi.Prelude.Tests.{nat_eq}
use loi.Prelude.Map.{find, insert}
use loi.Prelude.Text.{Text, text, text_beq}
use loi.Prelude.Word.{dev}
use loi.Syscalls.Decoder.{Decoder}
use loi.Syscalls.Decoders.Processes.{x86_64}
use loi.Syscalls.Registry.{
  Table, sysno_from_nr, name, new, register, decoder, sysno_id_u64, add, add_all,
  with_default_decoders,
}
use loi.Scenarios.Filtering.{numbers}
use loi.UnitTests.Support.{is_ok, is_none, is_some_of}

-- The numbers of the calls, as far as x86_64 has any.
abbrev known : Table ℕ
known = record numbers { of_number = λ n. if n == 2 ^ 64 - 1 then none else some n }

-- `u64::try_from(Sysno::….id()).expect(…)`, with an assertion on the number.
unfoldable on_nr : ℕ → (ℕ → Bool) → Bool
unfolding sysno_id_u64
on_nr s p = is_ok p (sysno_id_u64 known dev s)

abbrev host_write_nr : (ℕ → Bool) → Bool
host_write_nr = on_nr known.write

unfoldable named : ℕ → Option Text
unfolding name sysno_from_nr
named = name known

abbrev wired : Option Decoder → Bool
wired = is_some_of (λ d. true)

-- The decoder of a default registry for a call, with whether there is one.
unfoldable wires : ℕ → Bool
unfolding with_default_decoders add_all add register decoder sysno_id_u64 sysno_from_nr find insert
wires s =
    is_ok (λ reg. is_ok (λ nr. wired (decoder known nr reg)) (sysno_id_u64 known dev s))
      (with_default_decoders known dev x86_64)

unfoldable unregistered : ℕ → Bool
unfolding decoder sysno_from_nr find
unregistered nr = is_none (decoder known nr (new known))

abbrev name_returns_write_for_host_write_syscall : Bool
name_returns_write_for_host_write_syscall =
    host_write_nr (λ nr. is_some_of (text_beq (text "write")) (named nr))

abbrev name_returns_none_for_u64_max : Bool
name_returns_none_for_u64_max = is_none (named (2 ^ 64 - 1))

abbrev name_x86_64_nr_1_is_write : Bool
name_x86_64_nr_1_is_write = is_some_of (text_beq (text "write")) (named 1)

abbrev registry_decoder_slot_is_none_until_registered : Bool
registry_decoder_slot_is_none_until_registered = host_write_nr unregistered

abbrev with_default_decoders_wires_openat_read_write : Bool
with_default_decoders_wires_openat_read_write =
    wires known.openat && (wires known.read && wires known.write)

abbrev with_default_decoders_wires_close : Bool
with_default_decoders_wires_close = wires known.close

abbrev with_default_decoders_wires_mmap : Bool
with_default_decoders_wires_mmap = wires known.mmap

abbrev with_default_decoders_wires_mprotect : Bool
with_default_decoders_wires_mprotect = wires known.mprotect

abbrev with_default_decoders_wires_execve : Bool
with_default_decoders_wires_execve = wires known.execve

abbrev with_default_decoders_wires_clone : Bool
with_default_decoders_wires_clone = wires known.clone

abbrev with_default_decoders_wires_wait4 : Bool
with_default_decoders_wires_wait4 = wires known.wait4

abbrev with_default_decoders_wires_fstat_and_statx : Bool
with_default_decoders_wires_fstat_and_statx = wires known.fstat && wires known.statx

abbrev with_default_decoders_wires_stat_on_x86_64 : Bool
with_default_decoders_wires_stat_on_x86_64 = wires known.stat

abbrev suite : List Bool
suite =
    name_returns_write_for_host_write_syscall ∷ name_returns_none_for_u64_max
    ∷ name_x86_64_nr_1_is_write ∷ registry_decoder_slot_is_none_until_registered
    ∷ with_default_decoders_wires_openat_read_write ∷ with_default_decoders_wires_close
    ∷ with_default_decoders_wires_mmap ∷ with_default_decoders_wires_mprotect
    ∷ with_default_decoders_wires_execve ∷ with_default_decoders_wires_clone
    ∷ with_default_decoders_wires_wait4 ∷ with_default_decoders_wires_fstat_and_statx
    ∷ with_default_decoders_wires_stat_on_x86_64 ∷ []

suite_passes : all (λ t. t) suite ≡ true
unfolding on_nr named wires unregistered
suite_passes = refl
