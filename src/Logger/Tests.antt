-- ===== src/Logger/Tests.antt =====
-- The theorems on src/util/logger.cpp at two numbers.
use ntonix.Common.{ℕ, ◌≡◌, true, length, arith, All}
use ntonix.Logger.Context.{is_hex, generate_id, generate_id_lem}

abbrev one_value : ℕ
one_value = 17

abbrev other_value : ℕ
other_value = 99

generate_id_lem_example :
    (length (generate_id one_value) ≡ 16)
    × All (λ c. is_hex c ≡ true) (generate_id one_value)
    × (generate_id one_value ≡ generate_id other_value → one_value ≡ other_value)
generate_id_lem_example = generate_id_lem one_value other_value (omega arith) (omega arith)
