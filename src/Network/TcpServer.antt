-- ===== src/Network/TcpServer.antt =====
-- src/include/network/tcp_server.hpp and src/network/tcp_server.cpp: the sockets that a server reads
-- from and sends on.
-- A socket is its address. What `epoll_wait` reports and what `accept` returns are arguments: for
-- each new connection its socket, and whether its setup succeeded. Listen is a call of the operating
-- system.
pub mod Tracking
use vots.Base.{
  ℕ, Bool, true, false, Option, none, some, List, [], ◌∷◌, ◌++◌, if◌then◌else◌, ◌>>=◌, ◌==◌, ◌&&◌,
  ◌||◌,
}

pub record TcpServer : Type 0 where
  pub listener_socket : ℕ
  pub receive_sockets : List ℕ
  pub send_sockets : List ℕ

-- An event: the socket, and the bits EPOLLIN, EPOLLOUT, and EPOLLERR or EPOLLHUP.
pub record Event : Type 0 where
  pub socket : ℕ
  pub is_in : Bool
  pub is_out : Bool
  pub is_err : Bool

abbrev pub contains : List ℕ → ℕ → Bool
contains [] x = false
contains (y ∷ ys) x = (y == x) || contains ys x

-- `push_back`, unless `find` finds it.
unfoldable pub add_socket : List ℕ → ℕ → List ℕ
add_socket sockets socket = if contains sockets socket then sockets else sockets ++ (socket ∷ [])

unfoldable pub add_receive : TcpServer → ℕ → TcpServer
unfolding add_socket
add_receive s socket = record s { receive_sockets = add_socket s.receive_sockets socket }

unfoldable pub add_send : TcpServer → ℕ → TcpServer
unfolding add_socket
add_send s socket = record s { send_sockets = add_socket s.send_sockets socket }

-- The body of the loop over the events of a socket that is not the listener, or is not readable.
unfoldable pub track : TcpServer → Event → TcpServer
unfolding add_receive add_send
track s e =
    let s₁ = if e.is_in then add_receive s e.socket else s in
    let s₂ = if e.is_out then add_send s₁ e.socket else s₁ in
    if e.is_err then add_receive s₂ e.socket else s₂

-- The loop over the events, with `have_new_connection`.
unfoldable pub poll_events : TcpServer → Bool → List Event → TcpServer × Bool
unfolding track
poll_events s have_new_connection [] = (s, have_new_connection)
poll_events s have_new_connection (e ∷ es) =
    if e.is_in && (e.socket == s.listener_socket)
    then poll_events s true es
    else poll_events (track s e) have_new_connection es

-- The loop over the new connections, up to the `accept` that fails.
unfoldable pub accept_all : TcpServer → List (ℕ × Bool) → Option TcpServer
unfolding add_receive
accept_all s [] = some s
accept_all s ((socket, is_set_up) ∷ rest) =
    if is_set_up then accept_all (add_receive s socket) rest else none

unfoldable pub poll : TcpServer → List Event → List (ℕ × Bool) → Option TcpServer
unfolding poll_events accept_all
poll s events connections =
    let (s₁, have_new_connection) = poll_events s false events in
    if have_new_connection then accept_all s₁ connections else some s₁

module _ {ℓ} {S : Type ℓ} (exchange : S → ℕ → Option (S × Bool))
    (recv_finished : S → Option S) where
  -- SendAndRecv of each socket in turn, and whether one of them has read.
  unfoldable pub exchange_each : S → Bool → List ℕ → Option (S × Bool)
  exchange_each s has_read [] = some (s, has_read)
  exchange_each s has_read (socket ∷ sockets) = do
    step ← exchange s socket
    exchange_each step.0 (has_read || step.1) sockets

  -- The callback that ends the reads is called if there was one.
  unfoldable pub send_and_recv : TcpServer → S → Option S
  unfolding exchange_each
  send_and_recv server s = do
    read ← exchange_each s false server.receive_sockets
    told ← if read.1 then recv_finished read.0 else some read.0
    sent ← exchange_each told false server.send_sockets
    some sent.0
