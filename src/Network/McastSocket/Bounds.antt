-- ===== src/Network/McastSocket/Bounds.antt =====
-- The indices of a multicast socket stay within its buffers.
use vots.Base.{
  ℕ, ◌+◌, ◌-◌, ◌≤◌, ◌<◌, ◌≡◌, subst, inl, inr, some, List, ◌++◌, arith, length, ltb, ltb→lt,
  Bool-cases, some_inj, none-ne-some,
}
use vots.Network.{mcast_buffer_size, contents}
use vots.Network.Buffers.{memcpy-append}
use vots.Network.McastSocket.{McastSocket, send, read_into}

pub record IsValid (s : McastSocket) : Type 0 where
  pub send_in : s.next_send_valid_index < mcast_buffer_size
  pub rcv_in : s.next_rcv_valid_index ≤ mcast_buffer_size

-- A send that returns has appended its bytes to the send buffer.
pub send-appends :
    (s s' : McastSocket) (bytes : List ℕ)
    → send s bytes ≡ some s'
    → IsValid s
    → (contents s'.outbound_data 0 s'.next_send_valid_index
        ≡ contents s.outbound_data 0 s.next_send_valid_index ++ bytes)
      × IsValid s'
unfolding send
send-appends s s' bytes e v =
    elim (Bool-cases (ltb (s.next_send_valid_index + length bytes) mcast_buffer_size)) [
      | inr full ↦ absurd (none-ne-some s' (rw full at e))
      | inl room ↦
          subst
            (λ (x : McastSocket).
              (contents x.outbound_data 0 x.next_send_valid_index
                ≡ contents s.outbound_data 0 s.next_send_valid_index ++ bytes)
              × IsValid x)
            (some_inj (rw room at e))
            (
              memcpy-append s.outbound_data s.next_send_valid_index bytes,
              record {
                send_in = ltb→lt (s.next_send_valid_index + length bytes) mcast_buffer_size room;
                rcv_in = v.rcv_in;
              },
            )
    ]

-- What arrives is within the room that was asked for, so reading stays within the buffer.
pub read_into-IsValid :
    (s : McastSocket) (bytes : List ℕ)
    → length bytes ≤ mcast_buffer_size - s.next_rcv_valid_index
    → IsValid s
    → IsValid (read_into s bytes)
unfolding read_into
read_into-IsValid s bytes room v = record {
  send_in = v.send_in;
  rcv_in = omega (arith, v.rcv_in, room);
}
