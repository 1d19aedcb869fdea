-- ===== src/PubSub/Examples/Missed.antt =====
-- PCom2: the theorem on what a client misses, at a concrete run.
use pcom_assignments.Prelude.{
  ℕ, ◌≡◌, some, get_elem?, refl, ap, arith, List, [], ◌∷◌, ◌++◌, map, true, false,
}
use mathlib.Core.Bool.{false≢true}
use pcom_assignments.Prelude.Run.{done, Returns, ◌>>=◌}
use pcom_assignments.Prelude.Texts.{Text, text, fit, eq_text}
use pcom_assignments.PubSub.Protocol.{unsub_msg}
use pcom_assignments.PubSub.Client.{
  Sent, new_client, disconnect, subscribe, client_has_topic, content_size_of,
}
use pcom_assignments.PubSub.Server.{
  Server, Action, sends, Event, datagram, readable, client_at, received_packet, on_close, has_same,
  on_connection, on_subscribe, on_readable, main_loop, step, initial,
}
use pcom_assignments.PubSub.Server.Delivery.{IsSendable}
use pcom_assignments.PubSub.Server.Datagram.{Reaches-IsServer}
use pcom_assignments.PubSub.Server.Away.{Has}
use pcom_assignments.PubSub.Subscriber.{receive_loop}
use pcom_assignments.PubSub.Subscriber.Missed.{AreFor, print_packets, receive_loop-missed}
use pcom_assignments.PubSub.Examples.{s5, reaches5, a_away, a_returns, hi, hi-IsSendable}
use pcom_assignments.PubSub.Examples.Subscriber.{streams}

-- "b" unsubscribes, and then come a string for "t", one for "u" and another for "t".
abbrev for_u : List ℕ
for_u = fit 50 (text "u") ++ 3 ∷ text "no"

for_u-IsSendable : IsSendable (received_packet 1 2 for_u)
unfolding content_size_of
for_u-IsSendable = (3, refl)

abbrev events : List Event
events =
    readable 5 (unsub_msg ∷ fit 50 (text "t"))
    ∷ datagram 1 2 hi
    ∷ datagram 1 2 for_u
    ∷ datagram 3 4 hi
    ∷ []

a_away-Has : Has (text "a") 0 a_away s5
unfolding initial step on_connection new_client on_readable on_subscribe client_at has_same
    client_has_topic subscribe on_close disconnect
a_away-Has = record { goes_on = refl; at_id = refl; at = refl }

receive_loop-missed_example :
    Returns
      (λ (o : Server × List Action).
        (msgs : List Sent) × (o.1 ≡ map sends msgs)
        × AreFor 6 msgs
        × (receive_loop streams (map (λ (m : Sent). m.bytes) msgs)
            ≡ done (
              false,
              print_packets streams (received_packet 1 2 hi ∷ received_packet 3 4 hi ∷ []),
            ))
        × (get_elem? o.0.objects 0
            ≡ some (record a_away { fd = 6; connected = true; sf_queue = [] })))
      (main_loop 3 4 s5 events >>= λ t. on_connection t.0 6 a_returns)
unfolding initial step on_connection new_client on_readable on_subscribe client_at has_same
    client_has_topic subscribe on_close disconnect
receive_loop-missed_example =
    receive_loop-missed streams 3 4 s5 (Reaches-IsServer 3 4 reaches5) (text "a") 0 a_away
      a_away-Has refl tt events
      (
        (text "b", 1, refl, refl, (λ e. false≢true (ap (λ (t : Text). eq_text t (text "a")) e))),
        λ o e. (hi-IsSendable, λ o e. (for_u-IsSendable, λ o e. (hi-IsSendable, λ o e. tt))),
      )
      (tt, ((omega arith), ((omega arith), ((omega arith), tt)))) 6 a_returns refl refl
