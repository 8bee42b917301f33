-- ===== src/Network.antt =====
-- src/include/network and src/network: the buffers of the sockets, and the sockets of a server.
-- The calls of the operating system are parameters. A buffer is a table of bytes; what is copied
-- beyond its end has no defined behaviour and is `none`.
pub mod Buffers
pub mod TcpSocket
pub mod McastSocket
pub mod TcpServer
use vots.Base.{ℕ, zero, suc, ◌+◌, ◌*◌, List, [], ◌∷◌, update}

-- TCP_BUFFER_SIZE.
abbrev pub tcp_buffer_size : ℕ
tcp_buffer_size = 64 * 1024 * 1024

-- MCAST_BUFFER_SIZE.
abbrev pub mcast_buffer_size : ℕ
mcast_buffer_size = 64 * 1024 * 1024

-- `memcpy` to a place of a buffer.
abbrev pub memcpy : (ℕ → ℕ) → ℕ → List ℕ → ℕ → ℕ
memcpy buffer at [] = buffer
memcpy buffer at (b ∷ bs) = memcpy (update buffer at b) (at + 1) bs

-- Some bytes of a buffer.
abbrev pub contents : (ℕ → ℕ) → ℕ → ℕ → List ℕ
contents buffer from zero = []
contents buffer from (suc n) = buffer from ∷ contents buffer (from + 1) n
