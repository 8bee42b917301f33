-- ===== src/Network/TcpServer/Tracking.antt =====
-- Which sockets a server tracks after a poll.
use vots.Base.{ℕ, ◌≡◌, Bool, true, false, List, [], ◌∷◌, ◌==◌, ◌&&◌, ◌||◌, All}
use vots.Network.TcpServer.{TcpServer, Event, contains}

-- No socket stands twice in the list.
abbrev pub IsUnique : List ℕ → Type 0
IsUnique [] = Unit
IsUnique (x ∷ xs) = (contains xs x ≡ false) × IsUnique xs

-- All sockets of one list are in another.
abbrev pub AreIn : List ℕ → List ℕ → Type 0
AreIn xs ys = All (λ x. contains ys x ≡ true) xs

-- The list has no duplicates, and all sockets of `base` are in it.
abbrev Holds : List ℕ → List ℕ → Type 0
Holds base xs = IsUnique xs × AreIn base xs

-- The server keeps the invariant on its receive sockets, and its listener.
abbrev Keeps : List ℕ → TcpServer → TcpServer → Type 0
Keeps base s s' = Holds base s'.receive_sockets × (s'.listener_socket ≡ s.listener_socket)

-- An event says that there are new connections.
abbrev pub announces : ℕ → List Event → Bool
announces listener [] = false
announces listener (e ∷ es) = (e.is_in && (e.socket == listener)) || announces listener es
