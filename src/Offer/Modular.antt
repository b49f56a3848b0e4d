-- ===== src/Offer/Modular.antt =====
-- fib and numWays, whose answers are taken modulo 1000000007.
