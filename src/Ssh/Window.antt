-- ===== src/Ssh/Window.antt =====
-- The window of a channel in `processEncryptedData` of plugins/terminal-proxy/lib/ssh.js: what comes in is
-- taken from it, and a window that is too small for a packet is opened again.
use zlux_server_framework.Base.{
  ℕ, zero, suc, ◌+◌, ◌-◌, ◌≤◌, Option, none, some, List, [], ◌∷◌, ◌≡◌, arith, ltb, Bool-cases, inl,
  inr, if◌then◌else◌,
}
use zlux_server_framework.Base.Outcome.{Outcome}
use zlux_server_framework.Ssh.Bytes.{Bytes, Fault}
use zlux_server_framework.Ssh.Fields.{Field, number, buffer, generate_ssh_v2_pdu_bytes}
use zlux_server_framework.Ssh.Packet.{max_packet_size}

abbrev pub initial_window_size : ℕ
initial_window_size = 4194304

abbrev pub ssh_msg_channel_window_adjust : ℕ
ssh_msg_channel_window_adjust = 93

-- The window after some bytes have come in, and what is added to it, if it is opened. In the source the
-- difference may be negative; it is compared with the size of a packet, and what is added makes up for it.
unfoldable pub take_from_window : ℕ → ℕ → ℕ × Option ℕ
take_from_window zero received = (zero, none)
take_from_window (suc n) received =
    if ltb (suc n) (max_packet_size + received)
    then (initial_window_size, some (initial_window_size + received - suc n))
    else (suc n - received, none)

-- The message that opens the window. The field of the channel that the source names does not exist.
unfoldable pub window_adjust_pdu : ℕ → Outcome Fault Bytes
unfolding generate_ssh_v2_pdu_bytes
window_adjust_pdu bytes_to_be_added =
    generate_ssh_v2_pdu_bytes (
      buffer (ssh_msg_channel_window_adjust ∷ []) ∷ Field.no_number ∷ number bytes_to_be_added ∷ [])

abbrev pub or_nothing : Option ℕ → ℕ
or_nothing none = 0
or_nothing (some n) = n

abbrev pub sum : List ℕ → ℕ
sum [] = 0
sum (n ∷ ns) = n + sum ns

-- The window after several pieces of data, and all that has been added to it.
unfoldable pub take_all : ℕ → List ℕ → ℕ × ℕ
unfolding take_from_window
take_all window [] = (window, 0)
take_all window (received ∷ pieces) =
    let one = take_from_window window received in
    let others = take_all one.0 pieces in (others.0, or_nothing one.1 + others.1)

pub record WithinLimits (window received window' added : ℕ) : Type 0 where
  pub least : max_packet_size ≤ window'
  pub most : window' ≤ initial_window_size
  pub balance : window' + received ≡ window + added

take_from_window-WithinLimits :
    (window received : ℕ)
    → max_packet_size ≤ window
    → window ≤ initial_window_size
    → WithinLimits window received
        (take_from_window window received).0
        (or_nothing (take_from_window window received).1)
unfolding take_from_window
take_from_window-WithinLimits zero received least most = absurd (omega (arith, least))
take_from_window-WithinLimits (suc n) received least most =
    elim (Bool-cases (ltb (suc n) (max_packet_size + received))) [
      | inl small ↦
          rw small
            (record { least = omega arith; most = omega arith; balance = omega (arith, most) })
      | inr enough ↦ rw enough (record {
        least = ground (arith, enough);
        most = omega (arith, most);
        balance = ground (arith, enough);
      })
    ]

-- A window that holds a packet and is not larger than the initial one stays so, whatever comes in, and the
-- window at the end with all that has come in is the window at the start with all that was added to it.
pub take_all-WithinLimits :
    (window : ℕ) (pieces : List ℕ)
    → max_packet_size ≤ window
    → window ≤ initial_window_size
    → WithinLimits window (sum pieces) (take_all window pieces).0 (take_all window pieces).1
unfolding take_all
take_all-WithinLimits window [] least most = record {
  least = least;
  most = most;
  balance = omega arith;
}
take_all-WithinLimits window (received ∷ pieces) least most =
    let one = take_from_window-WithinLimits window received least most in
    let others =
      take_all-WithinLimits (take_from_window window received).0 pieces one.least one.most in
    record {
      least = others.least;
      most = others.most;
      balance = omega (arith, one.balance, others.balance);
    }
