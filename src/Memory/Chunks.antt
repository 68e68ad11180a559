-- ===== src/Memory/Chunks.antt =====
-- The size of a chunk of `read_cstr` as arithmetic.
use loi.Prelude.{ℕ, ◌-◌, ◌%◌, ◌^◌, ◌≤◌, ◌<◌, min, ◌≡◌, arith}
use loi.Prelude.Result.{ok, panic}
use loi.Prelude.Word.{Profile, dev, release, bit_or_page}
use loi.Memory.{chunk_size}

-- Below the last page of the address space a chunk ends with the page, or with what remains.
pub chunk_size_lem :
    (profile : Profile) (cursor remaining : ℕ)
    → cursor < 2 ^ 64 - 4096
    → chunk_size profile cursor remaining ≡ ok (min remaining (4096 - cursor % 4096))
unfolding chunk_size
chunk_size_lem profile cursor remaining h = ground (arith, bit_or_page cursor)

-- In a release build this holds of the last page too: both wrap-arounds cancel.
pub chunk_size_release :
    (cursor remaining : ℕ)
    → cursor < 2 ^ 64
    → chunk_size release cursor remaining ≡ ok (min remaining (4096 - cursor % 4096))
unfolding chunk_size
chunk_size_release cursor remaining h = ground (arith, bit_or_page cursor)

-- In a build with overflow checks a chunk of the last page panics.
pub chunk_size_dev :
    (cursor remaining : ℕ)
    → 2 ^ 64 - 4096 ≤ cursor
    → cursor < 2 ^ 64
    → chunk_size dev cursor remaining ≡ panic
unfolding chunk_size
chunk_size_dev cursor remaining lo hi = ground (arith, bit_or_page cursor)
