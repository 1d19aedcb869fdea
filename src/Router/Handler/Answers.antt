-- ===== src/Router/Handler/Answers.antt =====
-- PCom1/router.c: the packets that the router answers itself.
use pcom_assignments.Prelude.{ℕ, ◌+◌, ◌<◌, ◌≡◌, refl, ◌∙◌, ap, arith, List, [], ◌∷◌}
use pcom_assignments.Prelude.Words.{le32}
use pcom_assignments.Prelude.Run.{Run, done, Returns, returns, Returns->>=}
use pcom_assignments.Prelude.Bytes.{Memory, IsMemory, slice, read16, read32, bytes32}
use pcom_assignments.Router.Frames.{Sent, Packet}
use pcom_assignments.Router.Frames.Valid.{
  arp_frame, send_arp-arp_frame, IsIcmpFrame, send_icmp-IsIcmpFrame,
}
use pcom_assignments.Router.Handler.{Interfaces, Router, answer_echo, answer_arp, handle}
use pcom_assignments.Router.Handler.Guards.{
  IsEchoRequest, IsArpRequest, handle-echo, handle-arp_request,
}

bytes32-le32 :
    (a b c d : ℕ)
    → a < 256
    → b < 256
    → c < 256
    → d < 256
    → bytes32 (le32 a b c d) ≡ a ∷ b ∷ c ∷ d ∷ []
bytes32-le32 a b c d ha hb hc hd = ground arith

pub bytes32-read32 : (m : Memory) (at : ℕ) → IsMemory m → bytes32 (read32 m at) ≡ slice m at 4
bytes32-read32 m at h =
    bytes32-le32 _ _ _ _ (h at) (h (at + 1)) (h (at + 2)) (h (at + 3))
    ∙ ap (λ (k : ℕ). m at ∷ m (at + 1) ∷ m k ∷ m (at + 3) ∷ []) (omega arith)
    ∙ ap (λ (k : ℕ). m at ∷ m (at + 1) ∷ m (at + 1 + 1) ∷ m k ∷ []) (omega arith)

module _ (ifs : Interfaces) (r : Router) (m : Packet) where
  -- An echo request to the router's address is answered, to its sender and by the interface it came
  -- in by, with a valid echo reply of the same identifier and sequence number.
  pub handle_replies :
      IsEchoRequest ifs m
      → Returns
          (λ o.
            (s : Sent) × (o.0 ≡ r)
            × (o.1 ≡ s ∷ [])
            × IsIcmpFrame
                (read32 m.payload 26)
                (read32 m.payload 30)
                (slice m.payload 0 6)
                (slice m.payload 6 6)
                0
                0
                m.interface
                (read16 m.payload 38)
                (read16 m.payload 40)
                s)
          (handle ifs r m)
  unfolding answer_echo
  handle_replies echo =
      rw (handle-echo ifs r m echo)
        (Returns->>= (send_icmp-IsIcmpFrame _ _ _ _ _ _ _ _ _) λ s v. returns (s, refl, refl, v))

  -- An ARP request for the router's address is answered, to the host that asks and by the interface
  -- it came in by, with an ARP reply that gives the hardware address of that interface.
  pub handle_tells :
      IsArpRequest ifs m
      → IsMemory m.payload
      → handle ifs r m
        ≡ done (
          r,
          record {
            interface = m.interface;
            frame =
                arp_frame
                  (slice m.payload 22 6)
                  (ifs.mac m.interface)
                  2
                  (slice m.payload 38 4)
                  (slice m.payload 28 4);
          }
              ∷ [],
        )
  unfolding answer_arp
  handle_tells asks bytes =
      let p = m.payload in
      let told : List ℕ → List ℕ → Run (Router × List Sent) = λ spa tpa. done (
        r,
        record {
          interface = m.interface;
          frame = arp_frame (slice p 22 6) (ifs.mac m.interface) 2 spa tpa;
        }
            ∷ [],
      ) in
      handle-arp_request ifs r m asks
      ∙ ap (λ (s : Sent). done (r, s ∷ []))
          (send_arp-arp_frame (read32 p 28) (read32 p 38) (ifs.mac m.interface) (slice p 22 6)
            m.interface 2 (omega arith))
      ∙ ap (λ (spa : List ℕ). told spa (bytes32 (read32 p 28))) (bytes32-read32 p 38 bytes)
      ∙ ap (told (slice p 38 4)) (bytes32-read32 p 28 bytes)
