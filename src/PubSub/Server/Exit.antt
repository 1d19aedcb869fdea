-- ===== src/PubSub/Server/Exit.antt =====
-- PCom2/server.cpp: the command `exit`.
use native.Mathlib.Decide.{ℕ_discrete}
use pcom_assignments.Prelude.{
  ℕ, zero, suc, ◌+◌, ◌-◌, ◌≤◌, ◌<◌, ◌≡◌, refl, ap, ◌∙◌, ◌≢◌, inl, inr, arith, List, [], ◌∷◌, Bool,
  true, false, not, ◌&&◌, ◌==◌, ==_refl, ne→not_==, if◌then◌else◌, Bool-cases,
}
use pcom_assignments.Prelude.Texts.{Text, text, starts_with}
use pcom_assignments.PubSub.Protocol.{exit_msg}
use pcom_assignments.PubSub.Server.{Server, Action, closes, send_msg, set_fd, exit_loop, on_command}

module _ (udpsockfd tcpsockfd : ℕ) where
  abbrev is_client : (ℕ → Bool) → ℕ → Bool
  is_client fds j = fds j && (not (j == udpsockfd) && not (j == tcpsockfd))

  -- An EXIT message and a close for each client's descriptor from `j` on.
  abbrev pub farewells : (left j : ℕ) → (ℕ → Bool) → List Action
  farewells zero j fds = []
  farewells (suc left) j fds =
      if is_client fds j
      then send_msg j exit_msg ∷ closes j ∷ farewells left (j + 1) fds
      else farewells left (j + 1) fds

  -- A descriptor in front does not matter.
  farewells_lem :
      (left j i : ℕ) (fds : ℕ → Bool)
      → i < j
      → farewells left j (set_fd i false fds) ≡ farewells left j fds
  farewells_lem zero j i fds h = refl
  farewells_lem (suc left) j i fds h =
      rw (ne→not_== i j (omega arith), farewells_lem left (j + 1) i fds (omega arith)) refl

  exit_loop-farewells :
      (left j : ℕ) (fds : ℕ → Bool)
      → (exit_loop udpsockfd tcpsockfd left j fds).1 ≡ farewells left j fds
  unfolding exit_loop
  exit_loop-farewells zero j fds = refl
  exit_loop-farewells (suc left) j fds = elim (Bool-cases (is_client fds j)) [
    | inl here ↦ rw here (
        ap (λ more. send_msg j exit_msg ∷ closes j ∷ more)
          (exit_loop-farewells left (j + 1) (set_fd j false fds)
            ∙ farewells_lem left (j + 1) j fds (omega arith)))
    | inr other ↦ rw other (exit_loop-farewells left (j + 1) fds)
  ]

  -- A cleared descriptor stays so.
  exit_loop-cleared :
      (left j k : ℕ) (fds : ℕ → Bool)
      → fds k ≡ false
      → (exit_loop udpsockfd tcpsockfd left j fds).0 k ≡ false
  unfolding exit_loop
  exit_loop-cleared zero j k fds h = h
  exit_loop-cleared (suc left) j k fds h = elim (Bool-cases (is_client fds j)) [
    | inl here ↦ rw here (exit_loop-cleared left (j + 1) k (set_fd j false fds) (ground (arith, h)))
    | inr other ↦ rw other (exit_loop-cleared left (j + 1) k fds h)
  ]

  round_clears :
      (k : ℕ) (fds : ℕ → Bool)
      → k ≢ udpsockfd
      → k ≢ tcpsockfd
      → (if is_client fds k then set_fd k false fds else fds) k ≡ false
  round_clears k fds nu nt = elim (Bool-cases (fds k)) [
    | inl is_read ↦ rw (is_read, ne→not_== k udpsockfd nu, ne→not_== k tcpsockfd nt, ==_refl k) refl
    | inr shut ↦ rw shut shut
  ]

  exit_loop-clears :
      (left j k : ℕ) (fds : ℕ → Bool)
      → j ≤ k
      → k < j + left
      → k ≢ udpsockfd
      → k ≢ tcpsockfd
      → (exit_loop udpsockfd tcpsockfd left j fds).0 k ≡ false
  unfolding exit_loop
  exit_loop-clears zero j k fds le lt nu nt = absurd (omega arith)
  exit_loop-clears (suc left) j k fds le lt nu nt = elim (ℕ_discrete j k) [
    | yes same ↦ rw same (
        exit_loop-cleared left (k + 1) k (if is_client fds k then set_fd k false fds else fds)
          (round_clears k fds nu nt))
    | no other ↦
        exit_loop-clears left (j + 1) k (if is_client fds j then set_fd j false fds else fds)
          (omega (arith, other)) (omega arith) nu nt
  ]

  -- The command `exit` ends the loop of the server: it sends an EXIT message to each descriptor from 3
  -- on that is read, but the two sockets, and closes it, once and in ascending order, and none of
  -- them is read any more.
  pub on_command-farewells :
      (s : Server) (word : Text)
      → starts_with (text "exit") word ≡ true
      → let o = on_command udpsockfd tcpsockfd s word in
        (o.0.exit_status ≡ true)
        × (o.1 ≡ farewells (s.fdmax + 1 - 3) 3 s.read_fds)
        × ((k : ℕ) → 3 ≤ k → k ≤ s.fdmax → k ≢ udpsockfd → k ≢ tcpsockfd → o.0.read_fds k ≡ false)
  unfolding on_command
  on_command-farewells s word is_exit = rw is_exit (
    refl,
    exit_loop-farewells (s.fdmax + 1 - 3) 3 s.read_fds,
    (λ k from to nu nt. exit_loop-clears (s.fdmax + 1 - 3) 3 k s.read_fds from (omega arith) nu nt),
  )
