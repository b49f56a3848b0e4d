-- ===== src/Recurrence.antt =====
-- Linear recurrences: algorithm/CPP/topic/DP/00_FibonacciNumber/L509_FibonacciNumber.cpp,
-- L70_ClimbStairs.cpp and L1137_tribonacci.cpp. The variants with `double` are left out. An `int`
-- argument is modelled where it is not negative. The child modules hold one program each; `Matrix`
-- has the functions on `vector<vector<long>>` that all three share.
pub mod Matrix
pub mod PowersTwo
pub mod PowersThree
pub mod Series
pub mod Loops
pub mod Fibonacci
pub mod Stairs
pub mod Tribonacci
pub mod Variants
