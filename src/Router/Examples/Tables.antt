-- ===== src/Router/Examples/Tables.antt =====
-- PCom1/router.c and PCom1/queue.c: the theorems on tables and queue at concrete inputs.
use pcom_assignments.Prelude.{ℕ, ◌≡◌, refl, arith, [], ◌∷◌, none, some}
use pcom_assignments.Prelude.Run.{Returns}
use pcom_assignments.Router.Queue.{Heap, queue_create, queue_enq}
use pcom_assignments.Router.Queue.Fifo.{IsQueue, queue_create-IsQueue, queue_enq-IsQueue}
use pcom_assignments.Router.Masks.{get_prefix_length, get_subnet_mask}
use pcom_assignments.Router.Masks.Lengths.{get_prefix_length-get_subnet_mask}
use pcom_assignments.Router.RouteTable.{init_rtable, parse_rtable, get_best_route}
use pcom_assignments.Router.RouteTable.Lookup.{LongestMatch, get_best_route-LongestMatch}
use pcom_assignments.Router.RouteTable.Insertion.{insertion_sort, insertion_sort-IsQsort}
use pcom_assignments.Router.Examples.Data.{lines, lines_close}

get_best_route-LongestMatch_example :
    Returns
      (λ t. (dest : ℕ) → Returns (LongestMatch lines dest) (get_best_route t dest))
      (parse_rtable insertion_sort init_rtable lines)
get_best_route-LongestMatch_example =
    get_best_route-LongestMatch insertion_sort-IsQsort lines lines_close (λ e. cc)

abbrev no_heap : Heap ℕ
no_heap p = none

queue_enq-IsQueue_example :
    Returns (λ r. IsQueue r.1 r.0 (5 ∷ [])) (queue_enq 1 queue_create 5 no_heap)
queue_enq-IsQueue_example =
    queue_enq-IsQueue 1 5 (queue_create-IsQueue no_heap) (λ e. omega (arith, e)) refl

get_prefix_length-get_subnet_mask_example : get_prefix_length (get_subnet_mask 0) ≡ some 0
get_prefix_length-get_subnet_mask_example = get_prefix_length-get_subnet_mask 0 (omega arith)
