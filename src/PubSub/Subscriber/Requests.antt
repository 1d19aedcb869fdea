-- ===== src/PubSub/Subscriber/Requests.antt =====
-- PCom2/subscriber.cpp and server.cpp: the requests that a subscriber sends, and what the server
-- reads in them.
use pcom_assignments.Prelude.{
  ℕ, zero, suc, ◌+◌, ◌-◌, ◌≤◌, ◌≡◌, refl, sym, ap, ◌∙◌, ◌⊎◌, inl, inr, arith, List, [], ◌∷◌, ◌++◌,
  Bool, true, false, not, ◌&&◌, ◌==◌, le→not_ltb, ltb, if◌then◌else◌, length, length-append, get_or,
  Bool-cases,
}
use pcom_assignments.Prelude.Run.{done, Returns, returns}
use pcom_assignments.Prelude.Texts.{
  Text, text, fit, fit_append, length-fit, cstr, IsString, starts_with,
}
use pcom_assignments.PubSub.Protocol.{
  sub_msg, unsub_msg, proto_msg, subs_packet_bytes, msg_type, payload_string, payload_sf,
}
use pcom_assignments.PubSub.Subscriber.Arrays.{fit_all, get_or-append}
use pcom_assignments.PubSub.Subscriber.{
  Turn, Printed, print_feedback, sub_unsub, on_request, send_request, read_word, read_char,
  clear_stdin,
}

-- The string that the server reads in a request: the topic, but if that has 50 characters and the
-- SF is on, with a character 1 behind it.
abbrev pub received_topic : Text → Bool → Text
received_topic topic sf = if length topic == 50 && sf then topic ++ 1 ∷ [] else topic

-- The bytes of a request behind its type.
abbrev request_bytes : Text → Bool → List ℕ
request_bytes topic sf = subs_packet_bytes (record { topic = fit 50 topic; sf = sf })

length-request_bytes : (topic : Text) (sf : Bool) → length (request_bytes topic sf) ≡ 51
length-request_bytes topic sf =
    omega (arith, length-append (fit 50 topic) ((if sf then 1 else 0) ∷ []), length-fit 50 topic)

payload_string_lem :
    (type : ℕ) (bytes : List ℕ)
    → length bytes ≡ 51
    → payload_string (proto_msg type bytes) ≡ cstr bytes
payload_string_lem type bytes h =
    ap (λ (xs : List ℕ). cstr (fit 51 xs)) (fit_all 51 bytes h) ∙ ap cstr (fit_all 51 bytes h)

payload_sf_lem :
    (type b : ℕ) (xs : List ℕ)
    → length xs ≡ 50
    → payload_sf (proto_msg type (xs ++ b ∷ [])) ≡ not (b == 0)
payload_sf_lem type b xs h =
    let bytes = fit_all 51 (xs ++ b ∷ []) (omega (arith, h, length-append xs (b ∷ []))) in
    ap (λ (ys : List ℕ). not (get_or ys 50 0 == 0)) bytes
    ∙ ap (λ (c : ℕ). not (c == 0))
        (ap (λ (k : ℕ). get_or (xs ++ b ∷ []) k 0) (sym h) ∙ get_or-append xs [] b 0)

cstr_padded :
    (topic zeros : Text) (b : ℕ)
    → IsString topic
    → cstr ((topic ++ zeros) ++ b ∷ []) ≡ topic ++ cstr (zeros ++ b ∷ [])
cstr_padded [] zeros b h = refl
cstr_padded (c ∷ topic) zeros b h = ground (arith, h.0, cstr_padded topic zeros b h.1)

append_nil : (xs : Text) → xs ++ [] ≡ xs
append_nil [] = refl
append_nil (x ∷ xs) = ap (◌∷◌ x) (append_nil xs)

-- The end of the string, by the room that the topic leaves.
end_lem :
    (topic : Text) (k : ℕ) (sf : Bool)
    → length topic + k ≡ 50
    → topic ++ cstr (fit k [] ++ (if sf then 1 else 0) ∷ []) ≡ received_topic topic sf
end_lem topic zero true h =
    let full : (length topic == 50) ≡ true = ground (arith, h) in rw full refl
end_lem topic zero false h =
    let full : (length topic == 50) ≡ true = ground (arith, h) in rw full (append_nil topic)
end_lem topic (suc k) sf h =
    let short : (length topic == 50) ≡ false = ground (arith, h) in rw short (append_nil topic)

-- The string in a request of a topic without NUL characters.
cstr-request_bytes :
    (topic : Text) (sf : Bool)
    → IsString topic
    → length topic ≤ 50
    → cstr (request_bytes topic sf) ≡ received_topic topic sf
cstr-request_bytes topic sf string size = rw (fit_append 50 topic size) (
    cstr_padded topic (fit (50 - length topic) []) (if sf then 1 else 0) string
    ∙ end_lem topic (50 - length topic) sf (omega (arith, size)))

-- A topic of at most 50 characters without a NUL character: `sub_unsub` returns, and the server finds
-- the type and the SF in its message, and the topic, unless that has 50 characters and the SF is on.
-- Then it finds another one, with a character 1 at its end.
pub sub_unsub-payload :
    (topic : Text) (sf : Bool) (type : ℕ) (feedback : List ℕ)
    → IsString topic
    → length topic ≤ 50
    → Returns
        (λ (o : List ℕ × Printed).
          (length o.0 ≡ 52)
          × (msg_type o.0 ≡ type)
          × (payload_sf o.0 ≡ sf)
          × (payload_string o.0 ≡ (if length topic == 50 && sf then topic ++ 1 ∷ [] else topic))
          × (o.1 ≡ print_feedback type feedback))
        (sub_unsub topic sf type feedback)
unfolding sub_unsub
sub_unsub-payload topic sf type feedback string size = rw (le→not_ltb (length topic) 50 size) (
    returns (
      ap suc (length-fit 51 (request_bytes topic sf)),
      refl,
      payload_sf_lem type (if sf then 1 else 0) (fit 50 topic) (length-fit 50 topic) ∙ byte_lem sf,
      payload_string_lem type (request_bytes topic sf) (length-request_bytes topic sf)
          ∙ cstr-request_bytes topic sf string size,
      refl,
    ))
  where
    byte_lem : (b : Bool) → not ((if b then 1 else 0) == 0) ≡ b
    byte_lem true = refl
    byte_lem false = refl

-- A request has 52 bytes and one of the two types.
abbrev pub IsRequest : List ℕ → Type 0
IsRequest message =
    (length message ≡ 52) × ((msg_type message ≡ sub_msg) ⊎ (msg_type message ≡ unsub_msg))

-- A turn sends requests only, and only a topic of at most 50 characters.
abbrev pub Sends : Text → Turn → Type 0
Sends topic t =
    (t.sent ≡ [])
    ⊎ ((message : List ℕ) × (t.sent ≡ message ∷ []) × IsRequest message × (length topic ≤ 50))

send_request-Sends :
    (topic : Text) (sf : Bool) (type : ℕ) (rest : Text) (feedback : List ℕ)
    → length topic ≤ 50
    → (type ≡ sub_msg) ⊎ (type ≡ unsub_msg)
    → Returns
        (λ (t : Turn). (t.exit_status ≡ false) × Sends topic t)
        (send_request topic sf type rest feedback)
unfolding send_request sub_unsub
send_request-Sends topic sf type rest feedback size is = rw (le→not_ltb (length topic) 50 size) (
    returns (
      refl,
      inr (
        proto_msg type (request_bytes topic sf),
        refl,
        (ap suc (length-fit 51 (request_bytes topic sf)), is),
        size,
      ),
    ))

-- If the input has a character left behind the topic, `on_request` returns, and what it sends, if
-- anything, is one request of 52 bytes, of the type SUB or UNSUB, with the topic's length at most 50.
pub on_request-Sends :
    (command rest : Text) (feedback : List ℕ)
    → (c : ℕ) (after : Text) → read_char (read_word rest).1 ≡ done (c, after)
    → Returns
        (λ (t : Turn). (t.exit_status ≡ false) × Sends (read_word rest).0 t)
        (on_request command rest feedback)
unfolding on_request
on_request-Sends command rest feedback c after at =
    elim (Bool-cases (ltb 50 (length (read_word rest).0))) [
      | inl long ↦ rw long (returns (refl, inl refl))
      | inr short ↦ elim (Bool-cases (starts_with (text "un") command)) [
        | inl un ↦
            rw (short, un)
              (send_request-Sends (read_word rest).0 false unsub_msg
                (clear_stdin (read_word rest).1) feedback (ground (arith, short)) (inr refl))
        | inr sub ↦
            rw (short, sub, at)
              (elim (Bool-cases (not (c == 48) && not (c == 49))) [
                | inl bad ↦ rw bad (returns (refl, inl refl))
                | inr good ↦ rw good (
                    send_request-Sends (read_word rest).0 (not (c == 48)) sub_msg
                      (clear_stdin after) feedback (ground (arith, short)) (inl refl))
              ])
      ]
    ]
