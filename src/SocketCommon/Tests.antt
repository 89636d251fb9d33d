-- ===== src/SocketCommon/Tests.antt =====
-- A pair of sockets on Windows for which the last call fails.
use libpotato.Base.{◌≡◌, true, none, some, [], ◌∷◌}
use libpotato.SocketCommon.{Process, PairReplies, socket_pair}
use libpotato.SocketCommon.Guards.{Settles, socket_pair-Settles}

abbrev no_server : PairReplies
no_server = record {
  listen_sock = some 3;
  client_sock = some 4;
  binds = true;
  listens = true;
  connects = true;
  server_sock = none;
}

abbrev begun : Process
begun = record { gained = 1 ∷ []; closed = []; told = [] }

socket_pair-Settles_example :
    Settles begun (socket_pair no_server begun) × ((socket_pair no_server begun).0 ≡ none)
socket_pair-Settles_example = socket_pair-Settles no_server begun
