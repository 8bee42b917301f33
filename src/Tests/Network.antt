-- ===== src/Tests/Network.antt =====
-- Runs of src/network.
use vots.Base.{ℕ, ◌≡◌, refl, true, false, Option, none, some, List, [], ◌∷◌, ◌++◌, arith}
use vots.Network.TcpSocket.{TcpSocket, Exchanged, make_socket, send_and_recv}
use vots.Network.TcpSocket.Sending.{send_each, joined, unsent, undelivered, sends_handed_over}
use vots.Network.TcpServer.{TcpServer, Event}

abbrev silent : ℕ → Option (List ℕ × ℕ)
silent room = none

abbrev no_answer : TcpSocket → ℕ → Option TcpSocket
no_answer s rx_time = some s

abbrev two_messages : List (List ℕ)
two_messages = (1 ∷ 2 ∷ []) ∷ (3 ∷ []) ∷ []

sends_handed_over_example :
    (s : TcpSocket) × (send_each make_socket two_messages ≡ some s)
    × (e : Exchanged) × (send_and_recv silent no_answer s ≡ some e)
    × (e.handed_over ≡ unsent make_socket ++ joined two_messages)
    × (unsent e.socket ≡ [])
    × (undelivered e.socket ≡ undelivered make_socket)
sends_handed_over_example =
    sends_handed_over silent no_answer two_messages make_socket (omega arith) refl

abbrev server : TcpServer
server = record { listener_socket = 9; receive_sockets = 1 ∷ []; send_sockets = [] }

abbrev events : List Event
events =
    record { socket = 1; is_in = true; is_out = false; is_err = false }
    ∷ record { socket = 9; is_in = true; is_out = false; is_err = false }
    ∷ []

abbrev server_or : Option TcpServer → TcpServer
server_or none = server
server_or (some s) = s
