-- ===== src/HandShake/Outcome.antt =====
-- What ServerHandShake and ClientHandShake return, and how both go on to NewConn.
use wlgows.Base.{ℕ, Bool, Option, none, some}
use wlgows.Errors.{Error, Result}
use wlgows.Frame.{MaskingKey}
use wlgows.Read.{Reader}
use wlgows.Step.{Step, returned}
use wlgows.Writer.{Wire, Out}
use wlgows.Conn.{Conn, new_conn}
use wlgows.Http.{Request, Response}

-- What a handshake leaves behind: the request and the response as they now are, the error that it
-- returns, and the connection's write side.
pub record Shaken : Type 0 where
  pub request : Option Request
  pub response : Option Response
  pub error : Option Error
  pub wire : Wire

-- `if err != nil { return nil, res, err }`, and NewConn otherwise.
unfoldable pub conn_unless :
    Option Error → Reader → Out → Bool → (ℕ → Result MaskingKey) → Step (Option Conn)
unfolding new_conn
conn_unless (some e) r w mask_send_frame keys = returned (some e) none
conn_unless none r w mask_send_frame keys = new_conn r w mask_send_frame keys
