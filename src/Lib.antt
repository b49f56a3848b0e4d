-- ===== src/Lib.antt =====
-- Verification of the C++ part of the repository: a collection of small programs (algorithms, memory
-- pools, caches), each a component of its own here.
--
-- Parts, and the files that model them:
-- - algorithm/CacheReplacePolicies/LRU/LRUCache-1.cpp: Lru. The cache's state is LruCache; get, put
--   and insert are the methods, touch, set_value and shrink the parts of them. Lru/Entries and
--   Lru/Rep say how the list and the map hold one list of entries, Lru/Refine compares the cache
--   with a list of items, and Lru/MinusOne is about the value -1.
-- - ProgramLanguage/CPP/MemManager/Perf/MemoryPool.h, and Rational2 of STMemPool.cpp:
--   Pool/FreeList. The heap (Pool) gives `new` a fresh address, and keeps the first word of each
--   live block; an access to a block that is not live is undefined behaviour. Pool/FreeList/Chain
--   is about linked lists in the heap, Laws about alloc and free, Release about the life of a pool.
-- - ProgramLanguage/CPP/MemManager/Perf/ByteMemoryPool.h: Pool/Bytes, with Laws for one call and
--   Regions for rows of calls.
-- - algorithm/CPP/topic/BT/TreeTraversal.cpp and
--   doc/Algorithm/General/08_Tree/94_LC_E_binary-tree-traversal.cpp: Tree. A pointer to a node is the
--   tree below it, with the node's address. Tree/Recursive has the recursive traversals, Tree/Walk
--   the loops for preorder and inorder, Tree/Postorder those for postorder, Tree/Levels levelOrder.
-- - algorithm/CPP/topic/DP/00_FibonacciNumber/L509_FibonacciNumber.cpp, L70_ClimbStairs.cpp and
--   L1137_tribonacci.cpp beside it: Recurrence. Matrix has the matrix product and power that the
--   three files share, Loops two of their loops, Fibonacci, Stairs and Tribonacci the variants of one
--   file each, and Variants all of them on the inputs without overflow.
-- - algorithm/CPP/topic/Sort/InnerSort.cpp and Inner_Sort.cpp: Sort, with Bubble and Insertion from
--   the first file, and Selection and Shell from the second one; Shell/Pass is about one pass of a
--   Shell sort and Shell/Gaps about the rows of gaps, and Sort/Agree compares all of them.
-- - algorithm/CPP/topic/Stack/06_Offer_Stack.cpp: Stack/CQueue.
-- - doc/Algorithm/General/03_Stack/155_LC_M_min-stack.cpp: Stack/MinStack.
-- - doc/Language/CPP/Concurency/code/src/9.1_SimpleThreadPool4.cpp: ThreadPool/Queues and
--   ThreadPool/Steal. One step of a worker is a step of doWork and runPendingTask up to the return of
--   one queue's method, which holds its mutex from its start to its return. Moves says what a step
--   does, Account where the tasks are, Progress and Liveness that a worker finds a task.
-- - 9.1_SimpleThreadPool2.cpp beside it: ThreadPool/Fifo, with Order. A worker takes a task in one
--   step and starts it in a later one. ThreadPool/Accumulate has the ParallelAccumulate of the pools 2,
--   3 and 4, where the order in which the pool runs the tasks is an argument; Accumulate/Futures says
--   which orders run every task, and what the futures hold then.
-- - doc/Language/CPP/Concurency/ThreadSync/semaphore_11.cpp: Semaphore, with Exclusion for the mutex
--   and the counts and Front for the task that is done.
-- - algorithm/CPP/topic/DP/03_SingleSeq/L198_HouseRobber.cpp, L213_Houseobber2.cpp beside it, `rob`
--   of algorithm/CPP/topic/DP/14_Offer_DP.cpp, and
--   doc/Algorithm/General/02_DP/213_LC_M_house-robber-ii.cpp: Robber. Loot says what a robber can take,
--   Rolling is about the loop over two values, Street and Circle about the programs.
-- - 837_ACW_E_number-points-in-connected-block.cpp and 836_ACW_E_union-set.cpp of
--   doc/Algorithm/General/01_01_UnionFind: Disjoint, with Roots for find, Labels for sets kept by
--   labels, Holds for what the two have in common, Counts, Blocks and Sets for the programs.
-- - 1973_LC_E_find-if-path-exists-in-graph.cpp beside them: Disjoint/Graph. Graph/Paths says what a path
--   is and when labels fit the paths, Union is about one edge, Search about validPath.
-- - algorithm/CPP/topic/Set/UnionSet.cpp: Disjoint/UnionSet.
-- - fib, numWays, maxProfit, minFlipsMonoIncr and minCostClimbingStairs of
--   algorithm/CPP/topic/DP/14_Offer_DP.cpp: Offer, with Modular, Profit, Flips and Climb; and
--   waysToStep of 00_LC_DP2.cpp beside it: Offer/Steps.
-- - doc/Language/CPP/Concurency/ThreadSync/mutex_threadsafe_stack.cpp: SharedStack, with Values.
-- - the class Trie of the first part of algorithm/CPP/topic/Trie/10_Offer_Trie.cpp and both versions
--   of replaceWords: Trie. A pointer to a node is the tree below it. Trie/Pure has the operations on
--   words without their failures, Words compares rows of calls with a list of words, Sets is the
--   version of replaceWords with a set; Split, Shortest, Prefixes and Replace are about both.
--   Trie/Magic is the class MagicDictionary, with Magic/Search for what its search finds.
-- - algorithm/CPP/topic/Binaryearch/11_Offer_BinarySearch.cpp but myPow, and
--   doc/Algorithm/General/05_BinarySearch/798_ACW_E_data-range.cpp: Search, with Insert, Peak, Single
--   and Range for its searches. Search/Divide has both versions of divide; Quotient says what they
--   return, Doubling and Bisect are about one version each.
-- - reverseList, reversePrint, deleteNode and getKthFromEnd of
--   algorithm/CPP/topic/List/04_Offer_List.cpp: LinkedList. The nodes stand in a heap, by address;
--   LinkedList/Chains says which nodes a list has, Reverse, Delete and Kth are about the functions.
--
-- Conventions. Undefined behaviour (an index out of range, a null dereference, `top()` of an
-- empty stack, `back()` of an empty list) is `none` (Prelude/Partial), so a theorem that a
-- program equals `some r` says that it has none. An `int` is its bit pattern modulo 2 ^ 32, a
-- `long` and a `size_t` theirs modulo 2 ^ 64 (Prelude/Word). In Recurrence signed overflow is
-- taken to wrap around, and Variants states its theorem where nothing overflows. In Robber,
-- Disjoint, Offer, Search, getKthFromEnd and ThreadPool/Accumulate, where the numbers are not
-- negative, it is undefined (add_checked). Where only the order of the values matters (Sort,
-- Stack, Search), an `int` x stands as x + 2 ^ 31; in Search/Divide and in getKthFromEnd it is
-- one of ℤ (Prelude/Integer). Arguments of `fib`, `climbStairs` and `tribonacci` are not
-- negative.
--
-- Loops on fuel. The loops of the traversals get one round more than the tree has nodes, or than the
-- rounds counted by Tree.Postorder.rounds; levelOrder one more than the nodes; shrink of the cache
-- one more than its list; the powers of a matrix one more than the exponent; find of Disjoint as
-- many as the program has operations, and one more than the edges in validPath. Each theorem about
-- them says that a result is returned, so the fuel is enough. A Shell sort gets one round more than
-- its data, or than its table has gaps, split one more than the sentence, and a search one more than
-- its numbers; divide gets one round more than the dividend, or than INT_MAX + 1. The destructor of
-- a pool takes any fuel above the length of the free list, and so do the loops of LinkedList.
--
-- Threads. A program with threads is a state with a place for each thread, a function for one step
-- of one thread at its place, and a relation Step that lets any thread move; Reach is any sequence
-- of such steps. The pools start with all their workers, and a task's own work is one step. The
-- count of a semaphore is not bounded.
--
-- Not modelled: the closed formulas of the Fibonacci file and the stairs file, which compute with
-- `double`, and myPow; the destructors of ByteMemoryPool; copyRandomList, which has no body; the
-- programs that only call others, print or measure time; the TCP programs; the other sorts; and the
-- other algorithm files.
pub mod Prelude
pub mod Recurrence
pub mod Tree
pub mod Pool
pub mod Lru
pub mod Stack
pub mod Sort
pub mod ThreadPool
pub mod Semaphore
pub mod SharedStack
pub mod Robber
pub mod Disjoint
pub mod Offer
pub mod Trie
pub mod Search
pub mod LinkedList
mod Tests
