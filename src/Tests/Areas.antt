-- ===== src/Tests/Areas.antt =====
-- Register areas and banks.
use virtual_bess.Prelude.{◌+◌, ◌≤◌, ◌≡◌, ◌↔◌, refl, arith}
use virtual_bess.Prelude.Go.{crash}
use virtual_bess.Prelude.Array.{zeros}
use virtual_bess.Mbserver.Registers.{get_data}
use virtual_bess.Mbserver.Registers.Ranges.{get_data-crash}

get_data-crash_example : (get_data (zeros 65536) 65535 1 ≡ crash) ↔ (65536 ≤ 65535 + 1)
get_data-crash_example = get_data-crash (zeros 65536) 65535 1 (omega arith) (omega arith) refl
