-- ===== src/Router/Queue/Chain.antt =====
-- PCom1/list.c: chains of cells in the heap, with the address and the element of each cell.
use pcom_assignments.Prelude.{◌≡◌, refl, sym, ◌≢◌, arith, List, [], ◌∷◌, ◌++◌, Option, none, some}
use pcom_assignments.Router.Queue.{Ptr, null, Cell, Heap, write}

module _ {A : Type 0} where
  -- The address that leads to the chain.
  abbrev pub first : List (Ptr × A) → Ptr
  first [] = null
  first ((a, x) ∷ cs) = a

  abbrev pub Absent : Ptr → List (Ptr × A) → Type 0
  Absent a [] = Unit {0}
  Absent a ((b, x) ∷ cs) = (a ≢ b) × Absent a cs

  -- The cells stand in the heap, at different addresses, each linked to the next one.
  abbrev pub Chain : Heap A → List (Ptr × A) → Type 0
  Chain h [] = Unit {0}
  Chain h ((a, x) ∷ cs) =
      (a ≢ null) × (h a ≡ some (record { element = x; next = first cs })) × Absent a cs × Chain h cs

  -- `t` is the address of the last cell, if there is one.
  abbrev pub EndsAt : Ptr → List (Ptr × A) → Type 0
  EndsAt t [] = Unit {0}
  EndsAt t ((a, x) ∷ []) = t ≡ a
  EndsAt t ((a, x) ∷ c ∷ cs) = EndsAt t (c ∷ cs)

  pub Chain-write :
      (h : Heap A) (p : Ptr) (c : Option (Cell A)) (cs : List (Ptr × A))
      → Absent p cs
      → Chain h cs
      → Chain (write h p c) cs
  unfolding write
  Chain-write h p c [] out k = tt
  Chain-write h p c ((a, x) ∷ cs) out k = (k.0, ground arith, k.2, Chain-write h p c cs out.1 k.3)

  pub Chain-single :
      (h : Heap A) (p : Ptr) (e : A)
      → p ≢ null
      → Chain (write h p (some (record { element = e; next = null }))) ((p, e) ∷ [])
  unfolding write
  Chain-single h p e ne = (ne, ground arith, tt, tt)

  -- An address that is free is not in the chain.
  pub Absent-free :
      (h : Heap A) (p : Ptr) (cs : List (Ptr × A)) → h p ≡ none → Chain h cs → Absent p cs
  Absent-free h p [] e k = tt
  Absent-free h p ((a, x) ∷ cs) e k = (ground arith, Absent-free h p cs e k.3)

  EndsAt-ne :
      (t a : Ptr) (c : Ptr × A) (cs : List (Ptr × A))
      → EndsAt t (c ∷ cs)
      → Absent a (c ∷ cs)
      → a ≢ t
  EndsAt-ne t a (b, y) [] e out = ground arith
  EndsAt-ne t a (b, y) (d ∷ cs) e out = EndsAt-ne t a d cs e out.1

  Absent-append :
      (a p : Ptr) (e : A) (cs : List (Ptr × A)) → Absent a cs → a ≢ p → Absent a (cs ++ (p, e) ∷ [])
  Absent-append a p e [] out ne = (ne, tt)
  Absent-append a p e ((b, y) ∷ cs) out ne = (out.0, Absent-append a p e cs out.1 ne)

  pub EndsAt-append : (p : Ptr) (e : A) (cs : List (Ptr × A)) → EndsAt p (cs ++ (p, e) ∷ [])
  EndsAt-append p e [] = refl
  EndsAt-append p e ((b, y) ∷ []) = refl
  EndsAt-append p e ((b, y) ∷ d ∷ cs) = EndsAt-append p e (d ∷ cs)

  -- The cell at the end, and the chain after a new cell has been linked behind it.
  pub last_cell :
      (h : Heap A) (t : Ptr) (c : Ptr × A) (cs : List (Ptr × A))
      → EndsAt t (c ∷ cs)
      → Chain h (c ∷ cs)
      → (x : A) × (t ≢ null) × (h t ≡ some (record { element = x; next = null }))
  last_cell h t (a, x) [] e k = (x, ground arith, ground arith)
  last_cell h t (a, x) (d ∷ cs) e k = last_cell h t d cs e k.3

  pub Chain-append :
      (h : Heap A) (t p : Ptr) (e x : A) (c : Ptr × A) (cs : List (Ptr × A))
      → EndsAt t (c ∷ cs)
      → Chain h (c ∷ cs)
      → p ≢ null
      → Absent p (c ∷ cs)
      → h t ≡ some (record { element = x; next = null })
      → Chain
          (write
            (write h p (some (record { element = e; next = null })))
            t
            (some (record { element = x; next = p })))
          ((c ∷ cs) ++ (p, e) ∷ [])
  unfolding write
  Chain-append h t p e x (a, y) [] ends k ne out at_end =
      (k.0, ground arith, (λ eq. out.0 (sym eq), tt), (ne, ground arith, tt, tt))
  Chain-append h t p e x (a, y) (d ∷ cs) ends k ne out at_end = (
    k.0,
    ground (arith, EndsAt-ne t a d cs ends k.2),
    Absent-append a p e (d ∷ cs) k.2 (λ eq. out.0 (sym eq)),
    Chain-append h t p e x d cs ends k.3 ne out.1 at_end,
  )
