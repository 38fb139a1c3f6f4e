-- ===== src/Messages.antt =====
-- llmsh/src/messages.rs: the client of hermitd. The socket's state is in the history of its calls.
pub mod Protocol
pub mod Calm
pub mod Footprints
pub mod Setup
pub mod Closing
use llmsh.Base.{
  ℕ, List, [], ◌∷◌, ◌++◌, Option, none, some, Bool, true, false, codes, Error, failed,
  hermit_failed, hermit_busy, hermit_dead, illegal_state, Outcome, ok, err, bytes_eq, if◌then◌else◌,
}
use llmsh.Text.{Text}
use llmsh.Effects.{Method, ◌>>=◌, ◌>>◌, pure, raise}
use llmsh.Outside.{
  Outside, History, Effect, send, set_rcvtimeo, recv_string, create_socket, set_linger, connect,
  read_env, Answer, answer, failure, Received, again, recv_failure, not_utf8, received,
  ShellOutputType, Request, Response, setup_success, command_response, error, success,
}

abbrev pub hermitd_endpoint : Text
hermitd_endpoint = codes "ipc:///tmp/hermitd-ipc"

abbrev pub hermitd_api_version : Text
hermitd_api_version = codes "0.2"

abbrev pub alive_msg : Text
alive_msg = []

abbrev pub alive_resp : Text
alive_resp = codes "Ack"

abbrev pub busy_resp : Text
busy_resp = codes "Busy"

module _ {S A : Type 0} where
  -- The macro `map_err!`.
  unfoldable pub map_err : Answer A → Text → Method S A
  map_err (answer a) msg = pure a
  map_err (failure e) msg = raise (failed (msg ++ codes ": " ++ e))

-- A call of the outside: the effect is noted, and the answer may depend on all that went before.
abbrev pub call : {A : Type 0} → Effect → (History → A) → Method History A
call effect on h = (ok (on (effect ∷ h)), effect ∷ h)

module _ (o : Outside) where
  open o use {
    on_send, on_set_rcvtimeo, on_recv, on_create_socket, on_set_linger, on_connect, on_read_env,
    to_json, from_json, debug_text, debug_response,
  }

  unfoldable pub received_string : Received → Method History Text
  received_string again = raise hermit_dead
  received_string (recv_failure e) =
      raise (failed (codes "Receive string failed for ALIVE response" ++ codes ": " ++ e))
  received_string (not_utf8 e) =
      raise (failed (codes "Failed Vec<u8> to utf8 conversion, received: {:?}" ++ codes ": " ++ e))
  received_string (received s) = pure s

  unfoldable pub send_str : Text → ℕ → Method History Text
  unfolding map_err received_string
  send_str msg timeout = do
    sent ← call (send msg) on_send
    map_err sent (codes "Failed to send message to hermitd")
    timed ← call (set_rcvtimeo timeout) on_set_rcvtimeo
    map_err timed (codes "Failed to set receive zmq_timeout")
    resp ← call recv_string on_recv
    received_string resp

  abbrev unexpected : Text → Error
  unexpected shown =
      illegal_state (codes "Illegal State: Unexpected Response Message Type " ++ shown)

  unfoldable pub is_alive : Method History (Unit {0})
  unfolding send_str
  is_alive = do
    resp_str ← send_str alive_msg 500
    if bytes_eq resp_str alive_resp
        then pure tt
        else if bytes_eq resp_str busy_resp
        then raise hermit_busy
        else raise (unexpected (debug_text resp_str))

  unfoldable pub send_msg : Request → ℕ → Method History Response
  unfolding is_alive send_str map_err
  send_msg msg timeout = do
    is_alive
    request_json ← map_err (to_json msg) (codes "Failed to convert request object to json")
    reply_json ← send_str request_json timeout
    map_err (from_json reply_json)
        (codes "Failed to convert received json string to response object")

  unfoldable pub session_of : Response → Method History (ℕ × Text)
  session_of (setup_success session_id motd) = pure (session_id, motd)
  session_of (error status) =
      raise (hermit_failed (codes "Hermitd returned error with status " ++ status))
  session_of other = raise (unexpected (debug_response other))

  unfoldable pub setup_session : Method History (ℕ × Text)
  unfolding send_msg map_err session_of
  setup_session = do
    var ← call (read_env (codes "USER")) on_read_env
    user ← map_err var (codes "$USER is not set")
    reply ← send_msg (Request.setup user hermitd_api_version) 1000
    session_of reply

  -- The session's number stands for the client, with the message of the day.
  unfoldable pub init_client : Method History (ℕ × Text)
  unfolding setup_session map_err
  init_client = do
    socket ← call create_socket on_create_socket
    map_err socket (codes "Failed to create zmq socket")
    linger ← call (set_linger 1000) on_set_linger
    map_err linger (codes "Failed to set zmq_linger")
    connected ← call (connect hermitd_endpoint) on_connect
    map_err connected (
        codes
          "Failed to connect to hermitd ipc endpoint [/tmp/hermitd-ipc], please check your file system permissions")
    setup_session

  unfoldable pub saved_of : Response → Method History (Unit {0})
  saved_of success = pure tt
  saved_of (error status) = raise (hermit_failed status)
  saved_of other = raise (unexpected (debug_response other))

  unfoldable pub save_context : ℕ → Option ShellOutputType → Text → Method History (Unit {0})
  unfolding send_msg saved_of
  save_context session_id context_type context = do
    reply ← send_msg (Request.save_context session_id context_type context) 1000
    saved_of reply

  unfoldable pub generated_of : Response → Method History (Text × List Text)
  generated_of (command_response full_response commands) = pure (full_response, commands)
  generated_of (error status) = raise (hermit_failed status)
  generated_of other = raise (unexpected (debug_response other))

  unfoldable pub generate_command : ℕ → Text → Method History (Text × List Text)
  unfolding send_msg generated_of
  generate_command session_id prompt = do
    reply ← send_msg (Request.generate_command session_id prompt) 10000
    generated_of reply

  -- The result of the last request is dropped.
  unfoldable pub exit : ℕ → History → History
  unfolding send_msg
  exit session_id h = (send_msg (Request.exit session_id) 2000 h).1
