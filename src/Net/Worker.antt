-- ===== src/Net/Worker.antt =====
-- client/tetris/net/network.py: the connection and the sending of packets. Whether the socket
-- connects, and whether `sendall` raises, are the system's and are given to the calls; `sent` is the
-- list of what `sendall` has sent whole.
use project_tetris.Base.{Bool, true, false, List, [], ◌∷◌, ◌++◌, if◌then◌else◌}
use project_tetris.Python.Struct.{Bytes}

pub record NetworkWorker : Type 0 where
  pub running : Bool
  pub sent : List Bytes

abbrev pub new_worker : NetworkWorker
new_worker = record { running = false; sent = [] }

-- A new socket and receive thread, or none.
unfoldable pub connect_to_server : Bool → NetworkWorker → NetworkWorker × Bool
connect_to_server connects w = (record w { running = connects }, connects)

unfoldable pub send_packet : Bool → NetworkWorker → Bytes → NetworkWorker × Bool
send_packet delivers w packet =
    if w.running
    then (if delivers then (record w { sent = w.sent ++ (packet ∷ []) }, true) else (w, false))
    else (w, false)
