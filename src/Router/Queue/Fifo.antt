-- ===== src/Router/Queue/Fifo.antt =====
-- PCom1/queue.c: the heap queue is a first-in first-out list of its elements.
use pcom_assignments.Prelude.{
  ◌≡◌, refl, ◌≢◌, ap, arith, List, [], ◌∷◌, ◌++◌, none, some, true, false,
}
use mathlib.Core.Path.{subst}
use pcom_assignments.Prelude.Run.{done, fault, assertion, Returns, returns}
use pcom_assignments.Router.Queue.{
  Ptr, null, Heap, Queue, write, queue_create, queue_empty, queue_enq, queue_top, queue_deq,
}
use pcom_assignments.Router.Queue.Chain.{
  first, Chain, EndsAt, Chain-write, Chain-single, Absent-free, EndsAt-append, last_cell,
  Chain-append,
}

abbrev pub elements : {A : Type 0} → List (Ptr × A) → List A
elements [] = []
elements ((a, x) ∷ cs) = x ∷ elements cs

-- In heap `h` the queue holds `xs`, the front element first. An empty queue may keep a stale tail.
pub record IsQueue {A : Type 0} (h : Heap A) (q : Queue) (xs : List A) : Type 0 where
  pub cells : List (Ptr × A)
  pub holds : elements cells ≡ xs
  pub chain : Chain h cells
  pub head : q.head ≡ first cells
  pub tail : EndsAt q.tail cells

module _ {A : Type 0} where
  elements-append :
      (cs : List (Ptr × A)) (p : Ptr) (x : A) → elements (cs ++ (p, x) ∷ []) ≡ elements cs ++ x ∷ []
  elements-append [] p x = refl
  elements-append ((a, y) ∷ cs) p x = ap (◌∷◌ y) (elements-append cs p x)

  pub queue_create-IsQueue : (h : Heap A) → IsQueue h queue_create []
  unfolding queue_create
  queue_create-IsQueue h = record { cells = []; holds = refl; chain = tt; head = refl; tail = tt }

  -- `queue_empty` answers true exactly for the queue that holds nothing.
  pub queue_empty_cells :
      (h : Heap A) (q : Queue) (cs : List (Ptr × A))
      → Chain h cs
      → q.head ≡ first cs
      → queue_empty q ≡ elim cs [ [] ↦ true | _ ↦ false ]
  unfolding queue_empty
  queue_empty_cells h q [] k e = ground arith
  queue_empty_cells h q ((a, x) ∷ cs) k e = ground arith

  -- The two paths of `queue_enq`, with the heaps that they leave.
  enq_empty :
      (h : Heap A) (q : Queue) (fresh : Ptr) (e : A)
      → q.head ≡ null
      → fresh ≢ null
      → queue_enq fresh q e h
        ≡ done (
          record { head = fresh; tail = fresh },
          write h fresh (some (record { element = e; next = null })),
        )
  unfolding queue_enq
  enq_empty h q fresh e hd ne = ground arith

  enq_behind :
      (h : Heap A) (q : Queue) (fresh : Ptr) (e x : A)
      → q.head ≢ null
      → fresh ≢ null
      → q.tail ≢ null
      → q.tail ≢ fresh
      → h q.tail ≡ some (record { element = x; next = null })
      → queue_enq fresh q e h
        ≡ done (
          record q { tail = fresh },
          write
              (write h fresh (some (record { element = e; next = null })))
              q.tail
              (some (record { element = x; next = fresh })),
        )
  unfolding queue_enq write
  enq_behind h q fresh e x hd ne tl apart at_end = ground arith

  deq_front :
      (h : Heap A) (q : Queue) (x : A) (n : Ptr)
      → q.head ≢ null
      → h q.head ≡ some (record { element = x; next = n })
      → queue_deq q h ≡ done (x, record q { head = n }, write h q.head none)
  unfolding queue_deq
  deq_front h q x n ne at_head = ground arith

  enq_cells :
      (h : Heap A) (q : Queue) (cs : List (Ptr × A)) (fresh : Ptr) (e : A)
      → Chain h cs
      → q.head ≡ first cs
      → EndsAt q.tail cs
      → fresh ≢ null
      → h fresh ≡ none
      → Returns (λ r. IsQueue r.1 r.0 (elements cs ++ e ∷ [])) (queue_enq fresh q e h)
  enq_cells h q [] fresh e k hd tl ne free = rw (enq_empty h q fresh e hd ne) (
      returns (record {
        cells = (fresh, e) ∷ [];
        holds = refl;
        chain = Chain-single h fresh e ne;
        head = refl;
        tail = refl;
      }))
  enq_cells h q (c ∷ cs) fresh e k hd tl ne free =
      let (x, there, at_end) = last_cell h q.tail c cs tl k in
      rw (enq_behind h q fresh e x (ground (arith, k.0)) ne there (ground arith) at_end) (
        returns (record {
          cells = (c ∷ cs) ++ (fresh, e) ∷ [];
          holds = elements-append (c ∷ cs) fresh e;
          chain =
              Chain-append h q.tail fresh e x c cs tl k ne (Absent-free h fresh (c ∷ cs) free k)
                at_end;
          head = hd;
          tail = EndsAt-append fresh e (c ∷ cs);
        }))

  -- `malloc` gives an address that is not in use: then the new element goes to the end.
  pub queue_enq-IsQueue :
      {h : Heap A} {q : Queue} {xs : List A} (fresh : Ptr) (e : A)
      → IsQueue h q xs
      → fresh ≢ null
      → h fresh ≡ none
      → Returns (λ r. IsQueue r.1 r.0 (xs ++ e ∷ [])) (queue_enq fresh q e h)
  queue_enq-IsQueue {h} {q} {xs} fresh e is ne free =
      subst (λ (ys : List A). Returns (λ r. IsQueue r.1 r.0 (ys ++ e ∷ [])) (queue_enq fresh q e h))
        is.holds (enq_cells h q is.cells fresh e is.chain is.head is.tail ne free)

  EndsAt-rest : (t a : Ptr) (x : A) (cs : List (Ptr × A)) → EndsAt t ((a, x) ∷ cs) → EndsAt t cs
  EndsAt-rest t a x [] e = tt
  EndsAt-rest t a x (c ∷ cs) e = e

  -- The front element and the queue of the others.
  deq_cells :
      (h : Heap A) (q : Queue) (a : Ptr) (x : A) (cs : List (Ptr × A))
      → Chain h ((a, x) ∷ cs)
      → q.head ≡ a
      → EndsAt q.tail ((a, x) ∷ cs)
      → Returns
          (λ r. (r.0 ≡ x) × IsQueue r.2 r.1 (elements cs) × (r.2 q.head ≡ none))
          (queue_deq q h)
  deq_cells h q a x cs k hd tl =
      rw (deq_front h q x (first cs) (ground (arith, k.0)) (ground (arith, k.1))) (
        returns (
          refl,
          record {
            cells = cs;
            holds = refl;
            chain = Chain-write h q.head none cs (rw hd k.2) k.3;
            head = refl;
            tail = EndsAt-rest q.tail a x cs tl;
          },
          unfold write in ground arith,
        ))

  top_cells :
      (h : Heap A) (q : Queue) (a : Ptr) (x : A) (cs : List (Ptr × A))
      → Chain h ((a, x) ∷ cs)
      → q.head ≡ a
      → queue_top q h ≡ done x
  unfolding queue_top
  top_cells h q a x cs k hd = ground (arith, k.0, k.1)

  -- What the operations at the front answer for a queue that holds `xs`.
  abbrev pub Front : Heap A → Queue → List A → Type 0
  Front h q [] =
      (queue_empty q ≡ true) × (queue_top q h ≡ fault assertion) × (queue_deq q h ≡ fault assertion)
  Front h q (x ∷ xs) =
      (queue_empty q ≡ false)
      × (queue_top q h ≡ done x)
      × Returns (λ r. (r.0 ≡ x) × IsQueue r.2 r.1 xs × (r.2 q.head ≡ none)) (queue_deq q h)

  Front-cells :
      (h : Heap A) (q : Queue) (cs : List (Ptr × A))
      → Chain h cs
      → q.head ≡ first cs
      → EndsAt q.tail cs
      → Front h q (elements cs)
  unfolding queue_empty queue_top queue_deq
  Front-cells h q [] k hd tl = (ground arith, ground arith, ground arith)
  Front-cells h q ((a, x) ∷ cs) k hd tl =
      (ground (arith, k.0), top_cells h q a x cs k hd, deq_cells h q a x cs k hd tl)

  -- An empty queue says so, and the asserts of `queue_top` and `queue_deq` stop the program. On
  -- another queue `queue_top` gives the front element, and `queue_deq` gives it too, frees its
  -- cell and leaves a queue of the other elements in their order.
  pub queue_front_lem : {h : Heap A} {q : Queue} {xs : List A} → IsQueue h q xs → Front h q xs
  queue_front_lem {h} {q} is =
      subst (Front h q) is.holds (Front-cells h q is.cells is.chain is.head is.tail)
