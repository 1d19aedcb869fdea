-- ===== src/PubSub/Examples/Reuse.antt =====
-- PCom2/server.cpp: the theorem on a descriptor that is used again, at a concrete run.
use pcom_assignments.Prelude.{refl, arith, List, [], ◌∷◌}
use pcom_assignments.Prelude.Run.{Returns}
use pcom_assignments.Prelude.Texts.{text}
use pcom_assignments.PubSub.Protocol.{id_msg}
use pcom_assignments.PubSub.Client.{new_client, disconnect, subscribe, client_has_topic}
use pcom_assignments.PubSub.Server.{
  Server, Action, Event, datagram, connection, client_at, on_close, has_same, on_connection,
  on_subscribe, on_readable, main_loop, step, initial,
}
use pcom_assignments.PubSub.Server.Datagram.{Reaches-IsServer}
use pcom_assignments.PubSub.Server.Reuse.{Breaks}
use pcom_assignments.PubSub.Server.Reuse.Later.{main_loop-Breaks}
use pcom_assignments.PubSub.Examples.{s5, reaches5, a_away, a_returns, hi, hi-IsSendable}

-- "a" comes back on 6 while 5 is that of "b", and then come a datagram and a new client.
abbrev later : List Event
later = datagram 1 2 hi ∷ connection 7 (id_msg ∷ text "c") ∷ []

main_loop-Breaks_example :
    Returns
      (λ (o : Server × List Action). Breaks o.0 5)
      (main_loop 3 4 s5 (connection 6 a_returns ∷ later))
unfolding initial step on_connection new_client on_readable on_subscribe client_at has_same
    client_has_topic subscribe on_close disconnect
main_loop-Breaks_example =
    main_loop-Breaks 3 4 s5 6 a_returns 0 a_away (Reaches-IsServer 3 4 reaches5) refl refl refl refl
      refl (omega arith) refl later
      λ o at. (hi-IsSendable, tt, λ o at. (tt, ((omega arith), (λ e. cc)), λ o at. tt))
