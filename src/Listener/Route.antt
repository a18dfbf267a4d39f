-- ===== src/Listener/Route.antt =====
-- ListenerRouter.go, routeFrame: one frame to the hook that it belongs to. What a hook does to the
-- listener, by SetConfig and PauseListen, is a parameter, called where the code calls the hook.
pub mod Assembly
pub mod Budget
pub mod Whole
use wlgows.Base.{
  ℕ, ◌+◌, ◌%◌, ◌^◌, Bool, true, false, not, ◌&&◌, Option, none, some, List, [], ◌∷◌, ◌++◌, ltb,
  ◌==◌, length, if◌then◌else◌,
}
use wlgows.Errors.{
  Error, sentinel, frame_byte_length_exceeded, msg_frame_count_exceeded, invalid_utf8,
}
use wlgows.Opcode.{
  is_data_opcode, opcode_continuation, opcode_text, opcode_binary, opcode_close, opcode_ping,
  opcode_pong,
}
use wlgows.Frame.{Frame}
use wlgows.Message.{Frames}
use wlgows.Listener.{
  Hook, Call, frame_call, frames_call, ListenerConfig, Listener, get_config, validate_close_payload,
  valid_text_utf8, reset_current_data_frames,
}

module _ (call : Call → Listener → Listener) where
  -- if config.X != nil { config.X(f) }
  abbrev pub run_frame : Option Hook → Frame → Listener → Listener
  run_frame none f l = l
  run_frame (some h) f l = call (frame_call h f) l

  abbrev pub run_frames : Option Hook → Frames → Listener → Listener
  run_frames none fs l = l
  run_frames (some h) fs l = call (frames_call h fs) l

  -- A whole message, the assembly state already reopened, to the hook that its type names.
  unfoldable pub deliver : ListenerConfig → Frames → ℕ → Listener → Option Error × Listener
  deliver config frames opcode l =
      if opcode == opcode_text
      then (if not (valid_text_utf8 frames)
          then (some (sentinel invalid_utf8), l)
          else (none, run_frames config.text frames l))
      else if opcode == opcode_binary
      then (none, run_frames config.binary frames l)
      else (none, l)

  -- From the append on: the frame joins the message, and FIN ends it.
  unfoldable pub assemble : ListenerConfig → Frame → Listener → Option Error × Listener
  unfolding deliver reset_current_data_frames
  assemble config f l =
      let frames = l.current_data_frames ++ f ∷ [] in
      if not f.fin
      then (none, record l { current_data_frames = frames })
      else deliver config frames l.current_data_frame_opcode
          (reset_current_data_frames (record l { current_data_frames = frames }))

  -- A Data hook takes the frame instead, and the reset comes after the call.
  unfoldable pub hand_over :
      Option Hook → ListenerConfig → Frame → Listener → Option Error × Listener
  unfolding assemble
  hand_over none config f l = assemble config f l
  hand_over (some h) config f l =
      let l' = call (frame_call h f) l in (none, if f.fin then reset_current_data_frames l' else l')

  -- The budgets, counted before the frame is kept, and the message's type.
  unfoldable pub route_data_frame : ListenerConfig → Frame → Listener → Option Error × Listener
  unfolding hand_over
  route_data_frame config f l =
      let acc = (l.current_data_acc_length + length f.payload_data) % 2 ^ 64 in
      let count = (l.current_data_frame_count + 1) % 2 ^ 64 in
      if f.opcode == opcode_continuation && (not f.fin && length f.payload_data == 0)
      then (none, l)
      else if ltb 0 config.max_msg_payload_byte_len && ltb config.max_msg_payload_byte_len acc
      then (
        some (sentinel frame_byte_length_exceeded),
        reset_current_data_frames (record l { current_data_acc_length = acc }),
      )
      else if ltb 0 config.max_msg_frame_count && ltb config.max_msg_frame_count count
      then (
        some (sentinel msg_frame_count_exceeded),
        reset_current_data_frames
            (record l { current_data_acc_length = acc; current_data_frame_count = count }),
      )
      else hand_over config.data_hook config f (record l {
        current_data_acc_length = acc;
        current_data_frame_count = count;
        current_data_frame_opcode =
            if not (f.opcode == opcode_continuation) then f.opcode else l.current_data_frame_opcode;
      })

  -- The close frame's own check, then its hook.
  unfoldable pub route_close :
      Option Error → ListenerConfig → Frame → Listener → Option Error × Listener
  route_close (some e) config f l = (some e, l)
  route_close none config f l = (none, run_frame config.close f l)

  unfoldable pub route_frame : Frame → Listener → Option Error × Listener
  unfolding get_config route_close route_data_frame
  route_frame f l =
      let config = get_config l in
      if f.opcode == opcode_ping
      then (none, run_frame config.ping f l)
      else if f.opcode == opcode_pong
      then (none, run_frame config.pong f l)
      else if f.opcode == opcode_close
      then route_close (validate_close_payload f.payload_data) config f l
      else if not (is_data_opcode f.opcode)
      then (none, run_frame config.unknown f l)
      else route_data_frame config f l
