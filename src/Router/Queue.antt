-- ===== src/Router/Queue.antt =====
-- PCom1/list.c and PCom1/queue.c: a queue of list cells in an explicit heap. `fresh` is what a
-- call of `malloc` returns; the `struct queue` itself is a value that each operation gives back.
pub mod Chain
pub mod Fifo
use pcom_assignments.Prelude.{ℕ, Bool, Option, none, some, ◌==◌, if◌then◌else◌}
use pcom_assignments.Prelude.Run.{Run, done, fault, null_pointer, use_after_free, assertion, ◌>>=◌}

abbrev pub Ptr : Type 0
Ptr = ℕ

abbrev pub null : Ptr
null = 0

pub record Cell (A : Type 0) : Type 0 where
  pub element : A
  pub next : Ptr

-- What stands at an address; `none` is not allocated.
abbrev pub Heap : Type 0 → Type 0
Heap A = Ptr → Option (Cell A)

pub record Queue : Type 0 where
  pub head : Ptr
  pub tail : Ptr

-- The malloc of the `struct queue`, which is never freed while the router runs, is not modelled.
pub queue_create : Queue
queue_create = record { head = null; tail = null }

pub queue_empty : Queue → Bool
queue_empty q = q.head == null

module _ {A : Type 0} where
  pub write : Heap A → Ptr → Option (Cell A) → Heap A
  write h p c a = if a == p then c else h a

  -- `*p`
  pub load : Heap A → Ptr → Run (Cell A)
  load h p =
      if p == null
      then fault null_pointer
      else elim (h p) [ none ↦ fault use_after_free | some c ↦ done c ]

  pub cons : (fresh : Ptr) → A → Ptr → Heap A → Run (Ptr × Heap A)
  cons fresh element l h =
      if fresh == null
      then fault null_pointer
      else done (fresh, write h fresh (some (record { element = element; next = l })))

  pub cdr_and_free : Ptr → Heap A → Run (Ptr × Heap A)
  unfolding load
  cdr_and_free l h = do c ← load h l; done (c.next, write h l none)

  pub queue_enq : (fresh : Ptr) → Queue → A → Heap A → Run (Queue × Heap A)
  unfolding cons load queue_empty
  queue_enq fresh q element h =
      if queue_empty q
      then (do (c, h') ← cons fresh element null h; done (record { head = c; tail = c }, h'))
      else (do
        (c, h') ← cons fresh element null h
        last ← load h' q.tail
        done (record q { tail = c }, write h' q.tail (some (record last { next = c }))))

  pub queue_top : Queue → Heap A → Run A
  unfolding load queue_empty
  queue_top q h = if queue_empty q then fault assertion else (do c ← load h q.head; done c.element)

  pub queue_deq : Queue → Heap A → Run (A × Queue × Heap A)
  unfolding load cdr_and_free queue_empty
  queue_deq q h = if queue_empty q then fault assertion else (do
    c ← load h q.head
    (rest, h') ← cdr_and_free q.head h
    done (c.element, record q { head = rest }, h'))
