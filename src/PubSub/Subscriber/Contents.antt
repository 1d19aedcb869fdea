-- ===== src/PubSub/Subscriber/Contents.antt =====
-- PCom2/subscriber.cpp: the content of a packet that is cut to its size.
use pcom_assignments.Prelude.{
  ℕ, ◌≤◌, ◌<◌, ◌≡◌, refl, ap, ◌∙◌, inl, inr, arith, List, some, ◌==◌, length, get_or, take,
  Bool-cases,
}
use pcom_assignments.Prelude.Texts.{fit, cstr}
use pcom_assignments.PubSub.Protocol.{UdpPacket}
use pcom_assignments.PubSub.Client.{content_size_of, string_size}
use pcom_assignments.PubSub.Subscriber.{
  Streams, out, print_int, print_short_real, print_real, print_string, print_content,
}
use pcom_assignments.PubSub.Subscriber.Arrays.{get_or-fit, string_lem}

-- Two contents with the same first `n` bytes.
abbrev Agree : ℕ → List ℕ → List ℕ → Type 0
Agree n xs ys = (k : ℕ) → k < n → get_or xs k 0 ≡ get_or ys k 0

cut-Agree : (c : ℕ) (xs : List ℕ) → c ≤ 1500 → Agree c (fit 1500 (take c xs)) xs
cut-Agree c xs h k k_lt = get_or-fit 1500 c k xs k_lt h

cut_size :
    (c n : ℕ) (xs cut : List ℕ)
    → some c ≡ some n
    → cut ≡ fit 1500 (take n xs)
    → cut ≡ fit 1500 (take c xs)
cut_size c n xs cut e is = let same : n ≡ c = cc in is ∙ ap (λ (k : ℕ). fit 1500 (take k xs)) same

module _ (io : Streams) where
  print_int-Agree : (xs ys : List ℕ) → Agree 5 xs ys → print_int io xs ≡ print_int io ys
  unfolding print_int
  print_int-Agree xs ys a =
      rw
        (
          a 0 (omega arith),
          a 1 (omega arith),
          a 2 (omega arith),
          a 3 (omega arith),
          a 4 (omega arith),
        )
        refl

  print_short_real-Agree :
      (xs ys : List ℕ) → Agree 2 xs ys → print_short_real io xs ≡ print_short_real io ys
  unfolding print_short_real
  print_short_real-Agree xs ys a = rw (a 0 (omega arith), a 1 (omega arith)) refl

  print_real-Agree : (xs ys : List ℕ) → Agree 6 xs ys → print_real io xs ≡ print_real io ys
  unfolding print_real
  print_real-Agree xs ys a =
      rw
        (
          a 0 (omega arith),
          a 1 (omega arith),
          a 2 (omega arith),
          a 3 (omega arith),
          a 4 (omega arith),
          a 5 (omega arith),
        )
        refl

  print_string_lem : (xs ys : List ℕ) → cstr xs ≡ cstr ys → print_string io xs ≡ print_string io ys
  unfolding print_string
  print_string_lem xs ys e = rw e refl

  -- The content that is sent is shown as the whole one.
  pub print_content_lem :
      (topic cut : List ℕ) (p : UdpPacket) (n : ℕ)
      → content_size_of p ≡ some n
      → length p.content ≡ 1500
      → cut ≡ fit 1500 (take n p.content)
      → print_content io (record { topic = topic; data_type = p.data_type; content = cut })
        ≡ print_content io p
  unfolding content_size_of print_content
  print_content_lem topic cut p n at size is = elim (Bool-cases (p.data_type == 0)) [
    | inl is0 ↦
        let five : some 5 ≡ some n = rw is0 at at in
        let e = cut_size 5 n p.content cut five is in
        rw is0 (ap out (print_int-Agree cut p.content (rw e (cut-Agree 5 p.content (omega arith)))))
    | inr no0 ↦ elim (Bool-cases (p.data_type == 1)) [
      | inl is1 ↦
          let two : some 2 ≡ some n = rw (no0, is1) at at in
          let e = cut_size 2 n p.content cut two is in
          rw (no0, is1)
            (ap out
              (print_short_real-Agree cut p.content (rw e (cut-Agree 2 p.content (omega arith)))))
      | inr no1 ↦ elim (Bool-cases (p.data_type == 2)) [
        | inl is2 ↦
            let six : some 6 ≡ some n = rw (no0, no1, is2) at at in
            let e = cut_size 6 n p.content cut six is in
            rw (no0, no1, is2)
              (ap out (print_real-Agree cut p.content (rw e (cut-Agree 6 p.content (omega arith)))))
        | inr no2 ↦ elim (Bool-cases (p.data_type == 3)) [
          | inl is3 ↦
              let whole : some (string_size 1500 (cstr p.content)) ≡ some n =
                rw (no0, no1, no2, is3) at at in
              let e = cut_size (string_size 1500 (cstr p.content)) n p.content cut whole is in
              rw (no0, no1, no2, is3)
                (ap out
                  (print_string_lem cut p.content (ap cstr e ∙ string_lem 1500 p.content size)))
          | inr no3 ↦ rw (no0, no1, no2, no3) refl
        ]
      ]
    ]
  ]
