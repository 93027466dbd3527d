-- ===== src/Tests/Requests.antt =====
-- The checks of the wrappers at concrete requests.
use riscv_mte.Base.{◌≡◌, arith}
use riscv_mte.Wrappers.{check_for_calloc_overflow, check_for_calloc_overflow_fallback}
use riscv_mte.Wrappers.Checks.{check_for_calloc_overflow-eq-fallback}

check_for_calloc_overflow-eq-fallback_example :
    check_for_calloc_overflow_fallback 0x100000000 0x100000000
    ≡ check_for_calloc_overflow 0x100000000 0x100000000
check_for_calloc_overflow-eq-fallback_example =
    check_for_calloc_overflow-eq-fallback 0x100000000 0x100000000 (omega arith)
