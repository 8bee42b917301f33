-- ===== src/Network/TcpSocket.antt =====
-- src/include/network/tcp_socket.hpp and src/network/tcp_socket.cpp: what is sent is copied to a
-- buffer, and SendAndRecv passes it on and reads what has arrived.
-- `recvmsg` is a parameter: from the room that is left, the bytes read with the kernel's time, or
-- `none`. What `send` is called with is part of the result; how many of the bytes it takes is only
-- logged. Connect is a call of the operating system.
pub mod Sending
use vots.Base.{
  ℕ, ◌+◌, ◌-◌, Bool, true, false, Option, none, some, List, [], ◌∷◌, if◌then◌else◌, ◌>>=◌, ◌==◌,
  leb, length,
}
use vots.Network.{tcp_buffer_size, memcpy, contents}

pub record TcpSocket : Type 0 where
  pub outbound_data : ℕ → ℕ
  pub next_send_valid_index : ℕ
  pub inbound_data : ℕ → ℕ
  pub next_rcv_valid_index : ℕ

-- The constructor: `resize` fills the buffers with zeros.
abbrev pub make_socket : TcpSocket
make_socket = record {
  outbound_data = λ _. 0;
  next_send_valid_index = 0;
  inbound_data = λ _. 0;
  next_rcv_valid_index = 0;
}

unfoldable pub send : TcpSocket → List ℕ → Option TcpSocket
send s bytes =
    if leb (s.next_send_valid_index + length bytes) tcp_buffer_size
    then some (record s {
      outbound_data = memcpy s.outbound_data s.next_send_valid_index bytes;
      next_send_valid_index = s.next_send_valid_index + length bytes;
    })
    else none

-- What SendAndRecv returns, and the bytes that it called `send` with.
pub record Exchanged : Type 0 where
  pub socket : TcpSocket
  pub has_read : Bool
  pub handed_over : List ℕ

-- The second half: what is in the send buffer is handed over, and the buffer is empty after that.
unfoldable pub pass_on : TcpSocket → Bool → Exchanged
pass_on s has_read = record {
  socket = record s { next_send_valid_index = 0 };
  has_read = has_read;
  handed_over = contents s.outbound_data 0 s.next_send_valid_index;
}

-- The socket when the callback sees it: the kernel has written behind the valid bytes.
unfoldable pub read_into : TcpSocket → List ℕ → TcpSocket
read_into s bytes = record s {
  inbound_data = memcpy s.inbound_data s.next_rcv_valid_index bytes;
  next_rcv_valid_index = s.next_rcv_valid_index + length bytes;
}

module _ (recvmsg : ℕ → Option (List ℕ × ℕ))
    (recv_callback : TcpSocket → ℕ → Option TcpSocket) where
  unfoldable pub send_and_recv : TcpSocket → Option Exchanged
  unfolding read_into pass_on
  send_and_recv s = elim (recvmsg (tcp_buffer_size - s.next_rcv_valid_index)) [
    | none ↦ some (pass_on s false)
    | some (bytes, rx_time) ↦
        recv_callback (read_into s bytes) rx_time >>= λ s'. some (pass_on s' true)
  ]
