-- ===== src/Network/McastSocket.antt =====
-- src/include/network/mcast_socket.hpp and src/network/mcast_socket.cpp: the buffers of a multicast
-- socket, as those of a TCP socket, but that a send checks that the buffer is not full after it.
-- `recv` is a parameter: from the room that is left, the bytes read, or `none`. Init, Join and Leave
-- are calls of the operating system.
pub mod Bounds
use vots.Base.{
  ℕ, ◌+◌, ◌-◌, Bool, true, false, Option, none, some, List, if◌then◌else◌, ◌>>=◌, ltb, length,
}
use vots.Network.{mcast_buffer_size, memcpy, contents}

pub record McastSocket : Type 0 where
  pub outbound_data : ℕ → ℕ
  pub next_send_valid_index : ℕ
  pub inbound_data : ℕ → ℕ
  pub next_rcv_valid_index : ℕ

abbrev pub make_socket : McastSocket
make_socket = record {
  outbound_data = λ _. 0;
  next_send_valid_index = 0;
  inbound_data = λ _. 0;
  next_rcv_valid_index = 0;
}

-- The copy comes before the ASSERT: beyond the buffer it has no defined behaviour, and where it just
-- fills the buffer the ASSERT fails.
unfoldable pub send : McastSocket → List ℕ → Option McastSocket
send s bytes =
    if ltb (s.next_send_valid_index + length bytes) mcast_buffer_size
    then some (record s {
      outbound_data = memcpy s.outbound_data s.next_send_valid_index bytes;
      next_send_valid_index = s.next_send_valid_index + length bytes;
    })
    else none

-- What SendAndRecv returns, and the bytes that it called `send` with.
pub record Exchanged : Type 0 where
  pub socket : McastSocket
  pub has_read : Bool
  pub handed_over : List ℕ

unfoldable pub pass_on : McastSocket → Bool → Exchanged
pass_on s has_read = record {
  socket = record s { next_send_valid_index = 0 };
  has_read = has_read;
  handed_over = contents s.outbound_data 0 s.next_send_valid_index;
}

unfoldable pub read_into : McastSocket → List ℕ → McastSocket
read_into s bytes = record s {
  inbound_data = memcpy s.inbound_data s.next_rcv_valid_index bytes;
  next_rcv_valid_index = s.next_rcv_valid_index + length bytes;
}

module _ (recv : ℕ → Option (List ℕ)) (recv_callback : McastSocket → Option McastSocket) where
  unfoldable pub send_and_recv : McastSocket → Option Exchanged
  unfolding read_into pass_on
  send_and_recv s = elim (recv (mcast_buffer_size - s.next_rcv_valid_index)) [
    | none ↦ some (pass_on s false)
    | some bytes ↦ recv_callback (read_into s bytes) >>= λ s'. some (pass_on s' true)
  ]
