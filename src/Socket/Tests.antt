-- ===== src/Socket/Tests.antt =====
-- The theorems on sockets at concrete inputs.
use libpotato.Base.{refl, true, false, some, []}
use libpotato.IpAddress.{IpAddress, af_inet}
use libpotato.Socket.{Socket, tcp_socket, new_socket, connect}
use libpotato.Socket.Life.{Made, by_type, by_connect, IsSound, Made-IsSound}

abbrev peer : IpAddress
peer = record { sin_family = af_inet; sin_port = 80; sin_addr = 5; sin6_addr = [] }

abbrev fresh : Socket
fresh = record { socket = some 3; connected = false; address = peer }

abbrev online : Socket
online = record { socket = some 3; connected = true; address = peer }

online-Made : Made online
unfolding new_socket connect
online-Made =
    by_connect (λ fd a n. true) (λ fd. peer) fresh online peer true
      (by_type peer (λ f k. some 3) tcp_socket true fresh refl) refl

Made-IsSound_example : IsSound online
Made-IsSound_example = Made-IsSound online-Made
