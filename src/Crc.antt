-- ===== src/Crc.antt =====
-- U10/crc.c: a 16-bit checksum appended to a file (`calculate`), and its check and removal
-- (`validate`). Remainder models the division by the polynomial, Calculate and Validate the two
-- modes, Main the dispatch; the modules below them hold the proofs. The disk maps names to
-- contents. What stdio and the system calls may refuse is decided by a record of faults, one
-- for each call. Messages to stderr are not modelled.
pub mod Remainder
pub mod Calculate
pub mod Validate
pub mod Main
pub mod RoundTrip
mod Tests
use Prim.Native.Nat.{bit_or}
use ti.Base.{ℕ, ◌-◌, ◌^◌}

-- errors.h, and the macros of crc.c
abbrev pub err_arg : ℕ
err_arg = 1

abbrev pub err_file : ℕ
err_file = 2

abbrev pub err_io : ℕ
err_io = 3

abbrev pub wrong_checksum : ℕ
wrong_checksum = 4

abbrev pub poly : ℕ
poly = bit_or 0 (bit_or (2 ^ 15) (bit_or (2 ^ 2) (2 ^ 0)))

abbrev pub checksum_byte_cnt : ℕ
checksum_byte_cnt = 2

abbrev pub bufsize : ℕ
bufsize = 4096

abbrev pub int_max : ℕ
int_max = 2 ^ 31 - 1
