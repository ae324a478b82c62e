-- ===== src/Server/Boards.antt =====
-- The agent's endpoints: /heartbeat, /exam.seb, and the listing /machines.
pub mod Blob
use riscv_exam_computer.Base.{
  ℕ, Bool, true, false, not, Option, none, some, List, [], ◌∷◌, ◌++◌, if◌then◌else◌, length, Result,
  ok, err, Str, txt, opt_str_eq,
}
use riscv_exam_computer.Proto.{Heartbeat, HeartbeatReply, reply_of}
use riscv_exam_computer.SebFile.Values.{Ext}
use riscv_exam_computer.SebFile.Hex.{hex}
use riscv_exam_computer.Fleet.Model.{Fleet, Instant, HeartbeatError, invalid_host, too_many_boards}
use riscv_exam_computer.Fleet.Heartbeat.{heartbeat}
use riscv_exam_computer.Fleet.Views.{view}
use riscv_exam_computer.Auth.Digests.{agent_allowed}
use riscv_exam_computer.Server.State.{App, ExamBlob}
use riscv_exam_computer.Server.Http.{
  Request, Response, Body, response, with_header, header, header_text,
}

abbrev pub agent_error : ℕ → Str → Response
agent_error status msg =
    response status (Body.agent_reply (record (reply_of false) { error = some msg }))

unfoldable pub heartbeat_response : Result HeartbeatError HeartbeatReply → Response
heartbeat_response (ok reply) = response 200 (Body.agent_reply reply)
heartbeat_response (err invalid_host) = agent_error 400 (txt "invalid host name")
heartbeat_response (err too_many_boards) = agent_error 429 (txt "board limit reached")

-- `parsed` is what serde_json makes of the body.
unfoldable pub beat_app : App → Option Heartbeat → Instant → ℕ → App × Response
unfolding heartbeat heartbeat_response
beat_app a none now wall_ms = (a, agent_error 400 (txt "malformed heartbeat"))
beat_app a (some hb) now wall_ms =
    let (f, result) = heartbeat a.fleet hb now wall_ms in
    (record a { fleet = f }, heartbeat_response result)

module _ (ext : Ext) where
  unfoldable pub post_heartbeat : App → Request → Option Heartbeat → Instant → ℕ → App × Response
  unfolding agent_allowed header beat_app
  post_heartbeat a req parsed now wall_ms =
      if agent_allowed ext a.auth (header_text (txt "authorization") req.headers)
      then beat_app a parsed now wall_ms
      else (a, agent_error 401 (txt "missing or wrong agent token"))

  unfoldable pub etag_of : List ℕ → Str
  unfolding hex
  etag_of body = b'"' ∷ hex (ext.sha256 body) ++ b'"' ∷ []

  unfoldable pub exam_put : App → List ℕ → App × Response
  unfolding etag_of
  exam_put a body = (
    record a { exam_file = some (record { bytes = body; etag = etag_of body }) },
    response 200 (Body.stored (etag_of body) (length body)),
  )

unfoldable pub file_response : ExamBlob → Option Str → Response
unfolding opt_str_eq
file_response file if_none_match =
    if opt_str_eq if_none_match (some file.etag)
    then with_header (txt "etag") file.etag (response 304 Body.empty)
    else with_header (txt "content-type") (txt "application/octet-stream")
        (with_header (txt "etag") file.etag (response 200 (Body.raw file.bytes)))

unfoldable pub exam_get : App → Request → Response
unfolding header file_response
exam_get a req = elim a.exam_file [
  | none ↦ response 404 Body.empty
  | some file ↦ file_response file (header_text (txt "if-none-match") req.headers)
]

unfoldable pub machines : App → Instant → Response
unfolding view
machines a now = response 200 (Body.listing (view a.fleet now).boards)
