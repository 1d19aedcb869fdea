-- ===== src/Router/Examples/Headers.antt =====
-- PCom1/skel.c and PCom1/router.c: the theorems on checksums, addresses and frames at concrete
-- inputs.
use pcom_assignments.Prelude.{ℕ, ◌-◌, ◌<◌, ◌≡◌, ◌≢◌, ◌↔◌, refl, arith, List, [], ◌∷◌, some}
use pcom_assignments.Prelude.Words.{swap16, swap32}
use pcom_assignments.Prelude.Run.{done, Returns}
use pcom_assignments.Prelude.Bytes.{Memory, read16}
use pcom_assignments.Router.Checksum.{
  add_word, add_blocks, add_data, fold_carries, ip_checksum, header, updated,
}
use pcom_assignments.Router.Checksum.Sum.{word_sum, IsFolded, ip_checksum-IsFolded}
use pcom_assignments.Router.Checksum.Update.{updated-valid}
use pcom_assignments.Router.Hwaddr.{hwaddr_aton}
use pcom_assignments.Router.Hwaddr.RoundTrip.{hwaddr_text, hwaddr_aton-hwaddr_text}
use pcom_assignments.Router.Frames.{send_icmp}
use pcom_assignments.Router.Frames.Valid.{IsIcmpFrame, send_icmp-IsIcmpFrame}
use pcom_assignments.Router.Examples.Data.{datagram_bytes, loaded, loaded-IsMemory}

abbrev mac : List ℕ
mac = 0x02 ∷ 0xfe ∷ 0 ∷ 0x9a ∷ 1 ∷ 0xff ∷ []

hwaddr_aton-hwaddr_text_example : hwaddr_aton (hwaddr_text mac) ≡ some mac
hwaddr_aton-hwaddr_text_example = hwaddr_aton-hwaddr_text mac refl (omega arith)

ip_checksum-IsFolded_example :
    Returns
      (λ r. (r < 0x1_0000) × IsFolded (word_sum (0x12 ∷ 0x34 ∷ 0xff ∷ [])) (0xffff - swap16 r))
      (ip_checksum 3 (0x12 ∷ 0x34 ∷ 0xff ∷ []))
ip_checksum-IsFolded_example =
    ip_checksum-IsFolded 3 (0x12 ∷ 0x34 ∷ 0xff ∷ []) (omega arith) (omega arith) (omega arith)

abbrev bytes : Memory
bytes = loaded (datagram_bytes 64 0xb0 0x1f)

bytes_valid : ip_checksum 2 (header bytes) ≡ done 0
unfolding ip_checksum add_data add_blocks add_word fold_carries swap32 swap16
bytes_valid = refl

updated-valid_example :
    (ip_checksum 2 (header (updated bytes)) ≡ done 0) ↔ (read16 bytes 24 ≢ 0xffff)
updated-valid_example =
    updated-valid 2 bytes (omega arith)
      (loaded-IsMemory (datagram_bytes 64 0xb0 0x1f) (omega arith)) (omega arith) bytes_valid

send_icmp-IsIcmpFrame_example :
    Returns
      (IsIcmpFrame 0x0200_000a 0x0100_000a mac mac 0 0 1 0x500 0x200)
      (send_icmp 0x0200_000a 0x0100_000a mac mac 0 0 1 0x500 0x200)
send_icmp-IsIcmpFrame_example =
    send_icmp-IsIcmpFrame 0x0200_000a 0x0100_000a mac mac 0 0 1 0x500 0x200
