-- ===== src/Serve.antt =====
-- Server.go: a Server is a listening socket with its address. Resolving, listening, accepting and
-- closing are net's, and parameters here.
use wlgows.Base.Bytes.{Bytes}
use wlgows.Errors.{Result, ok, err}
use wlgows.Http.Text.{codes}

-- `A` is a resolved address, `L` a listener, `C` a connection.
pub record Tcp (A L C : Type 0) : Type 0 where
  pub resolve_tcp_addr : Bytes → Bytes → Result A
  pub listen_tcp : Bytes → A → Result L
  pub accept_tcp : L → Result C × L
  pub close_tcp : L → L

pub record Server (A L : Type 0) : Type 0 where
  pub tcp_addr : A
  pub tcp_listener : L

module _ {A L C : Type 0} (t : Tcp A L C) where
  abbrev pub new_server : A → L → Server A L
  new_server addr listener = record { tcp_addr = addr; tcp_listener = listener }

  abbrev pub served : A → Result L → Result (Server A L)
  served addr (ok listener) = ok (new_server addr listener)
  served addr (err e) = err e

  abbrev pub listened : Result A → Result (Server A L)
  listened (ok addr) = served addr (t.listen_tcp (codes "tcp") addr)
  listened (err e) = err e

  unfoldable pub run : Bytes → Result (Server A L)
  run service = listened (t.resolve_tcp_addr (codes "tcp4") service)

  unfoldable pub close : Server A L → Server A L
  close server = record server { tcp_listener = t.close_tcp server.tcp_listener }

  -- The next raw connection, and the server behind it.
  unfoldable pub accept : Server A L → Result C × Server A L
  accept server =
      let (c, listener) = t.accept_tcp server.tcp_listener in
      (c, record server { tcp_listener = listener })
