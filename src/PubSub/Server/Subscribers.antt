-- ===== src/PubSub/Server/Subscribers.antt =====
-- PCom2/server.cpp: the sets of subscribers, and the topics of a client.
use native.Mathlib.Decide.{ℕ_discrete}
use pcom_assignments.Prelude.{
  ℕ, ◌≡◌, refl, inl, inr, arith, List, [], ◌∷◌, Bool, true, false, not, ◌&&◌, ◌||◌, ◌==◌, ==_refl,
  ne→not_==, if◌then◌else◌, Bool-cases,
}
use pcom_assignments.Prelude.Texts.{Text, eq_text}
use pcom_assignments.PubSub.Client.{Client, subscribe, unsubscribe, client_has_topic}
use pcom_assignments.PubSub.Server.{member, insert_ref, erase_ref}
use pcom_assignments.PubSub.Server.Delivery.{Distinct}

pub member-insert_ref :
    (q r : ℕ) (rs : List ℕ) → member q (insert_ref r rs) ≡ (q == r || member q rs)
member-insert_ref q r rs = elim (Bool-cases (member r rs)) [
  | inl here ↦ rw here (elim (ℕ_discrete q r) [
    | yes same ↦ rw (same, here, ==_refl r) refl
    | no other ↦ rw (ne→not_== q r other) refl
  ])
  | inr absent ↦ rw absent refl
]

pub member-erase_ref :
    (q r : ℕ) (rs : List ℕ) → member q (erase_ref r rs) ≡ (not (q == r) && member q rs)
member-erase_ref q r [] = ground arith
member-erase_ref q r (p ∷ rs) = ground (arith, member-erase_ref q r rs)

pub insert_ref-Distinct : (r : ℕ) (rs : List ℕ) → Distinct rs → Distinct (insert_ref r rs)
insert_ref-Distinct r rs apart = elim (Bool-cases (member r rs)) [
  | inl here ↦ rw here apart
  | inr absent ↦ rw absent (absent, apart)
]

pub erase_ref-Distinct : (r : ℕ) (rs : List ℕ) → Distinct rs → Distinct (erase_ref r rs)
erase_ref-Distinct r [] apart = tt
erase_ref-Distinct r (p ∷ rs) apart = elim (Bool-cases (r == p)) [
  | inl same ↦ rw same (erase_ref-Distinct r rs apart.1)
  | inr other ↦
      rw other
        (rw (member-erase_ref p r rs, apart.0) (ground arith), erase_ref-Distinct r rs apart.1)
]

pub has-subscribe :
    (cl : Client) (topic t : Text) (sf : Bool)
    → client_has_topic (subscribe cl topic sf) t
      ≡ (if eq_text topic t then true else client_has_topic cl t)
unfolding client_has_topic subscribe
has-subscribe cl topic t sf = elim (Bool-cases (eq_text topic t)) [
  | inl same ↦ rw same refl
  | inr other ↦ rw other refl
]

pub has-unsubscribe :
    (cl : Client) (topic t : Text)
    → client_has_topic (unsubscribe cl topic) t
      ≡ (if eq_text topic t then false else client_has_topic cl t)
unfolding client_has_topic unsubscribe
has-unsubscribe cl topic t = elim (Bool-cases (eq_text topic t)) [
  | inl same ↦ rw same refl
  | inr other ↦ rw other refl
]
