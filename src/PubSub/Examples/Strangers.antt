-- ===== src/PubSub/Examples/Strangers.antt =====
-- PCom2/server.cpp: the theorems on senders that are no clients, at a concrete run.
use pcom_assignments.Prelude.{ℕ, ◌≡◌, refl, arith, List, [], ◌∷◌, ◌++◌}
use pcom_assignments.Prelude.Run.{fault, uninitialised, null_pointer}
use pcom_assignments.Prelude.Texts.{text, fit}
use pcom_assignments.PubSub.Protocol.{sub_msg}
use pcom_assignments.PubSub.Client.{new_client, disconnect, subscribe, client_has_topic}
use pcom_assignments.PubSub.Server.{
  datagram, connection, readable, client_at, on_close, has_same, on_connection, on_subscribe,
  on_readable, main_loop, step, initial,
}
use pcom_assignments.PubSub.Server.Datagram.{Reaches-IsServer}
use pcom_assignments.PubSub.Server.Strangers.{main_loop-uninitialised, main_loop-null_pointer}
use pcom_assignments.PubSub.Examples.{s5, reaches5, b_here}

-- The data type 4 for the topic "t".
abbrev unknown_type : List ℕ
unknown_type = fit 50 (text "t") ++ 4 ∷ []

main_loop-uninitialised_example :
    main_loop 3 4 s5 (datagram 1 2 unknown_type ∷ []) ≡ fault uninitialised
unfolding initial step on_connection new_client on_readable on_subscribe client_at has_same
    client_has_topic subscribe on_close disconnect
main_loop-uninitialised_example =
    main_loop-uninitialised 3 4 s5 1 2 unknown_type [] 1 b_here (Reaches-IsServer 3 4 reaches5) refl
      (omega arith) refl refl refl

main_loop-null_pointer_example :
    main_loop 3 4 (initial 3 4) (connection 5 (sub_msg ∷ []) ∷ readable 5 [] ∷ [])
    ≡ fault null_pointer
unfolding initial
main_loop-null_pointer_example =
    main_loop-null_pointer 3 4 (initial 3 4) 5 (sub_msg ∷ []) [] refl (omega arith) refl refl
