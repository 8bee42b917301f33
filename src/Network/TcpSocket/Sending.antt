-- ===== src/Network/TcpSocket/Sending.antt =====
-- What a socket hands over after several sends.
use vots.Base.{
  ℕ, ◌+◌, ◌-◌, ◌≤◌, ◌≡◌, refl, sym, ap, ◌∙◌, true, false, Option, none, some, List, [], ◌∷◌, ◌++◌,
  ◌>>=◌, append-nil, append_assoc, arith, length, length-append, le→leb,
}
use vots.Network.{tcp_buffer_size, memcpy, contents}
use vots.Network.Buffers.{memcpy-append}
use vots.Network.TcpSocket.{TcpSocket, Exchanged, send, read_into, pass_on, send_and_recv}

-- Sends one after the other.
abbrev pub send_each : TcpSocket → List (List ℕ) → Option TcpSocket
send_each s [] = some s
send_each s (m ∷ ms) = send s m >>= λ s'. send_each s' ms

abbrev pub joined : List (List ℕ) → List ℕ
joined [] = []
joined (m ∷ ms) = m ++ joined ms

abbrev pub unsent : TcpSocket → List ℕ
unsent s = contents s.outbound_data 0 s.next_send_valid_index

abbrev pub undelivered : TcpSocket → List ℕ
undelivered s = contents s.inbound_data 0 s.next_rcv_valid_index

-- Bytes were added to the send buffer, and nothing else changed.
pub record Buffered (s : TcpSocket) (bytes : List ℕ) (s' : TcpSocket) : Type 0 where
  pub more : unsent s' ≡ unsent s ++ bytes
  pub same_data : s'.inbound_data ≡ s.inbound_data
  pub same_index : s'.next_rcv_valid_index ≡ s.next_rcv_valid_index

send_each-Buffered :
    (ms : List (List ℕ)) (s : TcpSocket)
    → s.next_send_valid_index + length (joined ms) ≤ tcp_buffer_size
    → (s' : TcpSocket) × (send_each s ms ≡ some s') × Buffered s (joined ms) s'
unfolding send
send_each-Buffered [] s h =
    (s, refl, record { more = sym (append-nil _); same_data = refl; same_index = refl })
send_each-Buffered (m ∷ ms) s h =
    let long = length-append m (joined ms) in
    let s₁ = record s {
      outbound_data = memcpy s.outbound_data s.next_send_valid_index m;
      next_send_valid_index = s.next_send_valid_index + length m;
    } in
    let (s', done, b) = send_each-Buffered ms s₁ (omega (arith, long)) in
    (
      s',
      rw (le→leb (s.next_send_valid_index + length m) tcp_buffer_size (omega (arith, long))) done,
      record {
        more =
            b.more
            ∙ (ap (λ l. l ++ joined ms) (memcpy-append s.outbound_data s.next_send_valid_index m)
                ∙ append_assoc (unsent s) m (joined ms));
        same_data = b.same_data;
        same_index = b.same_index;
      },
    )

module _ (recvmsg : ℕ → Option (List ℕ × ℕ))
    (recv_callback : TcpSocket → ℕ → Option TcpSocket) where
  -- Messages that are sent and fit into the buffer are handed over as one run of bytes by the next
  -- SendAndRecv, behind what was there and in the order of the sends, if nothing arrives; then the
  -- send buffer is empty, and what was received is still there.
  pub sends_handed_over :
      (ms : List (List ℕ)) (s : TcpSocket)
      → s.next_send_valid_index + length (joined ms) ≤ tcp_buffer_size
      → recvmsg (tcp_buffer_size - s.next_rcv_valid_index) ≡ none
      → (s' : TcpSocket) × (send_each s ms ≡ some s')
        × (e : Exchanged) × (send_and_recv recvmsg recv_callback s' ≡ some e)
        × (e.handed_over ≡ unsent s ++ joined ms)
        × (unsent e.socket ≡ [])
        × (undelivered e.socket ≡ undelivered s)
  unfolding send_and_recv pass_on
  sends_handed_over ms s fits quiet =
      let (s', done, b) = send_each-Buffered ms s fits in
      (
        s',
        done,
        pass_on s' false,
        rw (ap (λ n. recvmsg (tcp_buffer_size - n)) b.same_index ∙ quiet, send_and_recv) refl,
        b.more,
        refl,
        ap (λ d. contents d 0 s'.next_rcv_valid_index) b.same_data
            ∙ ap (contents s.inbound_data 0) b.same_index,
      )

  -- Bytes that arrive are appended to what was received before, and the callback sees them all; what
  -- it sends in answer is handed over in the same call.
  pub bytes_received :
      (s s' : TcpSocket) (bytes : List ℕ) (rx_time : ℕ)
      → recvmsg (tcp_buffer_size - s.next_rcv_valid_index) ≡ some (bytes, rx_time)
      → recv_callback (read_into s bytes) rx_time ≡ some s'
      → (undelivered (read_into s bytes) ≡ undelivered s ++ bytes)
        × (send_and_recv recvmsg recv_callback s ≡ some (pass_on s' true))
        × ((pass_on s' true).handed_over ≡ unsent s')
  unfolding send_and_recv pass_on read_into
  bytes_received s s' bytes rx_time arrived called = (
    memcpy-append s.inbound_data s.next_rcv_valid_index bytes,
    rw (arrived, called, send_and_recv) refl,
    refl,
  )
