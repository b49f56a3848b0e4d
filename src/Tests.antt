-- ===== src/Tests.antt =====
-- Runs of the modelled programs on small inputs, and each theorem with hypotheses at an input that
-- meets them.
mod Recurrences
mod Trees
mod Pools
mod Caches
mod Stacks
mod Sorts
mod Threads
mod Robbers
mod Unions
mod Offers
mod Tries
mod Searches
mod Lists
mod Shared
