-- ===== src/LinkedList.antt =====
-- The linked lists of algorithm/CPP/topic/List/04_Offer_List.cpp. The nodes stand in a heap, by
-- address; `val` is any number. An access to an address without a node, or to null, is undefined.
-- The loops run on fuel.
pub mod Chains
pub mod Reverse
pub mod Delete
pub mod Kth
use geektime.Prelude.Integer.{ℤ, pos, negsuc}
use geektime.Prelude.{
  ◌^◌, Bool, false, ℕ, zero, suc, ◌-◌, Option, none, some, ◌>>=◌, List, [], ◌∷◌, ◌++◌, ltb, ◌==◌,
  add_checked, if◌then◌else◌,
}

abbrev pub Pointer : Type 0
Pointer = Option ℕ

pub record ListNode : Type 0 where
  pub val : ℕ
  pub next : Pointer

abbrev pub Nodes : Type 0
Nodes = ℕ → Option ListNode

-- `p->next = q`
abbrev pub put_next : Nodes → ℕ → ListNode → Pointer → Nodes
put_next h p n q a = if a == p then some (record n { next = q }) else h a

unfoldable pub set_next : Nodes → ℕ → Pointer → Option Nodes
set_next h p q = do n ← h p; some (put_next h p n q)

-- The loop of reverseList, which reversePrint begins with too: the heap, and the last `pre`.
unfoldable pub reverse_loop : ℕ → Nodes → Pointer → Pointer → Option (Nodes × Pointer)
unfolding set_next
reverse_loop zero h pre head = none
reverse_loop (suc fuel) h pre none = some (h, pre)
reverse_loop (suc fuel) h pre (some p) = do
  n ← h p
  h' ← set_next h p pre
  reverse_loop fuel h' (some p) n.next

unfoldable pub reverse_list : ℕ → Nodes → Pointer → Option (Nodes × Pointer)
unfolding reverse_loop
reverse_list fuel h head = reverse_loop fuel h none head

unfoldable pub print_loop : ℕ → Nodes → Pointer → List ℕ → Option (List ℕ)
print_loop zero h pre ans = none
print_loop (suc fuel) h none ans = some ans
print_loop (suc fuel) h (some p) ans = do n ← h p; print_loop fuel h n.next (ans ++ n.val ∷ [])

unfoldable pub reverse_print : ℕ → Nodes → Pointer → Option (List ℕ)
unfolding reverse_loop print_loop
reverse_print fuel h head = do (h', pre) ← reverse_loop fuel h none head; print_loop fuel h' pre []

unfoldable pub delete_loop : ℕ → Nodes → Pointer → Pointer → ℕ → Option Nodes
unfolding set_next
delete_loop zero h pre cur v = none
delete_loop (suc fuel) h pre none v = some h
delete_loop (suc fuel) h pre (some p) v = do
  n ← h p
  let found : Option Nodes = do q ← pre; set_next h q n.next
  let on = delete_loop fuel h (some p) n.next v
  if n.val == v then found else on

unfoldable pub delete_node : ℕ → Nodes → Pointer → ℕ → Option (Nodes × Pointer)
unfolding delete_loop
delete_node fuel h head v = do
  p ← head
  n ← h p
  let ans = if n.val == v then n.next else head
  h' ← delete_loop fuel h none ans v
  some (h', ans)

-- `while (cur) { ++n; cur = cur->next; }`.
unfoldable pub count_loop : ℕ → Nodes → Pointer → ℕ → Option ℕ
count_loop zero h cur n = none
count_loop (suc fuel) h none n = some n
count_loop (suc fuel) h (some p) n = do n' ← add_checked n 1; c ← h p; count_loop fuel h c.next n'

-- `n -= k` of two `int` that are not negative.
abbrev pub difference : ℕ → ℕ → ℤ
difference n k = if ltb n k then negsuc (k - n - 1) else pos (n - k)

abbrev pub is_zero : ℤ → Bool
is_zero (pos n) = n == 0
is_zero (negsuc n) = false

-- `n--`: undefined at INT_MIN.
unfoldable pub decrement : ℤ → Option ℤ
decrement (pos zero) = some (negsuc 0)
decrement (pos (suc n)) = some (pos n)
decrement (negsuc n) = if ltb (suc n) (2 ^ 31) then some (negsuc (suc n)) else none

-- `while (n--) head = head->next;`, whose test is whether `n` was 0.
unfoldable pub walk : ℕ → Nodes → Pointer → ℤ → Option Pointer
unfolding decrement
walk zero h head n = none
walk (suc fuel) h head n = do
  n' ← decrement n
  let on : Option Pointer = do p ← head; c ← h p; walk fuel h c.next n'
  if is_zero n then some head else on

-- For a k that is not negative. With k above the number of nodes, `n` gets negative.
unfoldable pub get_kth_from_end : ℕ → Nodes → Pointer → ℕ → Option Pointer
unfolding count_loop walk
get_kth_from_end fuel h head k = do n ← count_loop fuel h head 0; walk fuel h head (difference n k)
