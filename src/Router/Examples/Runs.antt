-- ===== src/Router/Examples/Runs.antt =====
-- PCom1/router.c: the theorems on the loop of `main` at concrete packets.
use pcom_assignments.Prelude.{ℕ, ◌≡◌, refl, arith, List, [], ◌∷◌}
use pcom_assignments.Prelude.Words.{swap16}
use pcom_assignments.Prelude.Run.{done, Returns}
use pcom_assignments.Prelude.Bytes.{Memory, slice}
use pcom_assignments.Router.GrowArray.Holds.{Holds}
use pcom_assignments.Router.ArpTable.{init_arptable, get_mac}
use pcom_assignments.Router.ArpTable.Laws.{first_for, init_arptable-Holds}
use pcom_assignments.Router.RouteTable.{Rtable}
use pcom_assignments.Router.RouteTable.Insertion.{insertion_sort, insertion_sort-IsQsort}
use pcom_assignments.Router.Frames.{Sent}
use pcom_assignments.Router.Handler.{Router, start, main_loop, main}
use pcom_assignments.Router.Handler.Guards.{IsArpReply}
use pcom_assignments.Router.Handler.Learning.{told}
use pcom_assignments.Router.Handler.Paths.{request}
use pcom_assignments.Router.Handler.Forwarding.{passed_byte}
use pcom_assignments.Router.Handler.Safety.{IsRouter}
use pcom_assignments.Router.Handler.Runs.{told_by, AreOrdered, main-IsRouter}
use pcom_assignments.Router.Handler.Resolution.{main_loop_resolves}
use pcom_assignments.Router.Examples.Data.{
  lines, lines_close, route, routes, route_known, ifs, router, arp_packet_bytes, reply,
  loaded-IsMemory,
}
use pcom_assignments.Router.Examples.Handling.{
  good, good_valid, good-IsMemory, datagram-IsPassing, reply-IsArpReply,
}

main_loop_resolves_example :
    Returns
      (λ (o : Router × List Sent).
        (p : Memory) × (o.1
          ≡ request ifs route ∷ record { interface = 1; frame = slice p 0 42 } ∷ [])
        × ((b : ℕ) → p b ≡ passed_byte good.payload (0 ∷ 0 ∷ 0 ∷ 0 ∷ 1 ∷ 1 ∷ []) (ifs.mac 1) b)
        × (o.0.queue ≡ [])
        × (o.0.rtable ≡ routes)
        × Holds o.0.arptable (told reply ∷ []))
      (main_loop ifs (router init_arptable []) (good ∷ reply ∷ []))
main_loop_resolves_example =
    main_loop_resolves ifs (λ i. refl) (router init_arptable []) [] init_arptable-Holds refl good
      reply route (datagram-IsPassing 64 0xb0 0x1f) good-IsMemory (omega arith) good_valid
      route_known refl reply-IsArpReply refl

good_no_reply : ¬ IsArpReply good
unfolding swap16
good_no_reply v = omega (arith, v.is_arp)

ordered : (t : Rtable) → AreOrdered ifs (start t) (reply ∷ good ∷ [])
ordered t = ((λ v. omega arith), (λ o at. ((λ v. absurd (good_no_reply v)), (λ u at_u. tt))))

main-IsRouter_example :
    Returns
      (λ (o : Router × List Sent).
        IsRouter o.0
        × ((ip : ℕ) → get_mac o.0.arptable ip ≡ done (first_for ip (told_by (reply ∷ good ∷ [])))))
      (main ifs insertion_sort lines (reply ∷ good ∷ []))
main-IsRouter_example =
    main-IsRouter ifs (λ i. refl) insertion_sort-IsQsort lines (reply ∷ good ∷ []) lines_close
      (λ e. cc)
      (
        loaded-IsMemory (arp_packet_bytes 2 (10 ∷ 0 ∷ 0 ∷ 1 ∷ [])) (omega arith),
        (good-IsMemory, tt),
      )
      (λ t at. ordered t)
