-- ===== src/UnitTests/Decoders/Execve.antt =====
-- The unit tests of crates/loi-syscalls/src/decoders/execve.rs.
use loi.Prelude.{
  ℕ, zero, suc, ◌+◌, ◌-◌, ◌/◌, ◌%◌, ◌&&◌, ◌≡◌, refl, Bool, true, false, List, [], ◌∷◌, ◌++◌, all,
  map, length, replicate, ◌==◌,
}
use loi.Prelude.Int.{pos}
use loi.Prelude.Print.{decimal_ℤ}
use loi.Prelude.Text.{Text, text, text_beq}
use loi.Syscalls.Decoder.{DecodedCall, path, ptr}
use loi.Syscalls.Decoders.Execve.{execve, max_argv, sentinel_overflow, sentinel_unreadable}
use loi.UnitTests.Support.{texts_beq, is_some_of, last}
use loi.UnitTests.Decoders.{
  Buffer, address_of, c_string, ctx_of, decode_with, on_call, is_memory_error, arg_is, argv_arg,
  counted,
}

-- A pointer in memory: so many bytes of the number, the lowest first.
abbrev le_bytes : ℕ → ℕ → List ℕ
le_bytes zero p = []
le_bytes (suc n) p = p % 256 ∷ le_bytes n (p / 256)

abbrev pointers : List ℕ → List ℕ
pointers [] = []
pointers (p ∷ ps) = le_bytes 8 p ++ pointers ps

-- The pointers to the strings, and the null pointer.
abbrev build_argv : List Buffer → List ℕ
build_argv strings = pointers (map address_of strings ++ 0 ∷ [])

-- Strings on pages of their own, from this page on.
abbrev on_pages : ℕ → List Text → List Buffer
on_pages page [] = []
on_pages page (s ∷ ss) = (page, c_string s) ∷ on_pages (suc page) ss

abbrev c_path : Text → Buffer
c_path p = (3, c_string p)

-- The call with a path, and a vector in memory beside what it points to.
abbrev on_execve : Text → List ℕ → List Buffer → ℕ → (DecodedCall → Bool) → Bool
on_execve p vector strings envp = on_call (
    decode_with execve (c_path p ∷ (4, vector) ∷ strings)
      (ctx_of (address_of (c_path p)) (address_of (4, vector)) envp 0 0 0 (pos 0)))

abbrev echo : List Text
echo = text "/bin/echo" ∷ text "hi" ∷ []

-- `(0..100).map(|i| format!("arg{i}"))`
unfoldable numbered : ℕ → Text
unfolding decimal_ℤ
numbered i = text "arg" ++ decimal_ℤ (pos i)

abbrev hundred : List Text
hundred = map numbered (counted 0 100)

-- `entries[i]`, with an assertion on it.
abbrev entry_is : List Text → ℕ → Text → Bool
entry_is [] i s = false
entry_is (e ∷ es) zero s = text_beq e s
entry_is (e ∷ es) (suc i) s = entry_is es i s

abbrev execve_decoder_reads_pathname_and_two_entry_argv : Bool
execve_decoder_reads_pathname_and_two_entry_argv =
    let strings = on_pages 5 echo in
    on_execve (text "/bin/echo") (build_argv strings) strings 0
      (λ call. arg_is 0 (path (text "/bin/echo")) call && argv_arg (texts_beq echo) call)

abbrev execve_decoder_caps_argv_walk_at_max_argv : Bool
execve_decoder_caps_argv_walk_at_max_argv =
    let strings = on_pages 5 hundred in
    on_execve (text "/bin/sh") (build_argv strings) strings 0 (
      argv_arg (λ entries.
        length entries == max_argv + 1
        && (is_some_of (text_beq sentinel_overflow) (last entries)
            && (entry_is entries 0 (text "arg0")
                && entry_is entries (max_argv - 1) (numbered (max_argv - 1))))))

abbrev execve_decoder_surfaces_error_when_argv_pointer_unreadable : Bool
execve_decoder_surfaces_error_when_argv_pointer_unreadable = is_memory_error (
    decode_with execve (c_path (text "/bin/sh") ∷ [])
      (ctx_of (address_of (c_path (text "/bin/sh"))) 0x1 0 0 0 0 (pos 0)))

-- The second string has 4096 bytes and no terminator.
abbrev execve_decoder_replaces_truncated_entry_with_unreadable_sentinel : Bool
execve_decoder_replaces_truncated_entry_with_unreadable_sentinel =
    let strings = (5, c_string (text "ok")) ∷ (6, replicate 4096 65) ∷ [] in
    on_execve (text "/bin/sh") (build_argv strings) strings 0 (
      argv_arg (λ entries.
        length entries == 2
        && (entry_is entries 0 (text "ok") && entry_is entries 1 sentinel_unreadable)))

abbrev execve_decoder_renders_envp_as_ptr : Bool
execve_decoder_renders_envp_as_ptr =
    on_execve (text "/bin/sh") (build_argv []) [] 0x42 (arg_is 2 (ptr 0x42))

abbrev suite : List Bool
suite =
    execve_decoder_reads_pathname_and_two_entry_argv ∷ execve_decoder_caps_argv_walk_at_max_argv
    ∷ execve_decoder_surfaces_error_when_argv_pointer_unreadable
    ∷ execve_decoder_replaces_truncated_entry_with_unreadable_sentinel
    ∷ execve_decoder_renders_envp_as_ptr ∷ []

suite_passes : all (λ t. t) suite ≡ true
unfolding decode_with numbered
suite_passes = refl
