-- ===== src/Print/Tests.antt =====
-- src/kstdio.cpp: printing the largest word.
use floss.Base.{ℕ, ◌-◌, ◌^◌, ◌≤◌, ◌≡◌, List, [], ◌++◌, length, done, arith}
use floss.Print.{print_number, number_buf_size}
use floss.Print.Digits.{log_char, log_str, numeral, print_number_lem}

print_number_lem_example :
    (out : List ℕ) × (print_number log_char log_str [] (2 ^ 64 - 1) 10 ≡ done ([] ++ out))
    × (length out ≤ number_buf_size)
    × (numeral 10 0 out ≡ 2 ^ 64 - 1)
print_number_lem_example =
    print_number_lem 10 (omega arith) (omega arith) (2 ^ 64 - 1) (omega arith) []
