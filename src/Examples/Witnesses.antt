-- ===== src/Examples/Witnesses.antt =====
-- The theorems at concrete inputs: a bash with the markers "<in>" and "<on>", and an outside that works.
use llmsh.Base.{ℕ, ◌++◌, some, get_elem?}
use llmsh.Shell.Hermit.{on_selection, select, selection_of, handle_hermit_selection}
use llmsh.Shell.Strings.{trim, parse_usize, decimal}
use llmsh.Shell.Numerals.{IsNumber}
use llmsh.Shell.Selections.{on_selection-some}
use llmsh.Shell.Offered.{entry, handle_hermit_selection-offers}
use llmsh.MainLoop.{safe_handle_terminal, repeatedly, max_eintr_retry}
use llmsh.MainLoop.Safety.{safe_handle_terminal-safe}
use llmsh.MainLoop.Interrupts.{safe_handle_terminal-interrupted, retried}
use llmsh.Outside.{interrupted, poll}
use llmsh.Base.{panicked, inl, inr, ◌≢◌}
use llmsh.Base.{
  [], ◌∷◌, Bool, false, Bytes, codes, ok, ◌≡◌, ◌⊎◌, refl, arith, bytes_eq, if◌then◌else◌, err,
}
use llmsh.Text.{Text, into_bytes}
use llmsh.Outside.{
  Outside, History, Answer, answer, pty_bytes, line, Received, received, again, Request, success,
  command_response, recv_string, set_rcvtimeo, send, events, still_alive, read_line, flush_stdout,
  write_stdout,
}
use llmsh.Util.{fix_newlines}
use llmsh.Messages.{save_context, send_msg, generate_command, alive_msg}
use llmsh.Messages.Protocol.{send_msg-ok, send_msg-unacknowledged, exchanged}
use llmsh.Shell.Bash
use llmsh.Shell.Bash.{BashState, BashParser, bash_state_eq, transitions, echoes, make_string_id}
use llmsh.Shell.Proxy.{ShellProxy, handle_input, handle_output}
use llmsh.Shell.Output.{IsCoupled, handle_output-works}
use llmsh.Shell.Coupling.{IsWorking}
use llmsh.Shell.Typed.{handle_input-works}
use llmsh.Shell.Dialogue.{IsInteractive}
use llmsh.Shell.Sessions.{
  create_proxy, create_proxy-IsCoupled, unhandled, output_handled, Handled-IsCoupled, AreMarkers,
}

abbrev pub in_marker : Bytes
in_marker = codes "<in>"

abbrev pub out_marker : Bytes
out_marker = codes "<on>"

-- hermitd acknowledges, and sends every other message back.
abbrev reply_to : History → Received
reply_to (recv_string ∷ set_rcvtimeo n ∷ send [] ∷ h) = received (codes "Ack")
reply_to (recv_string ∷ set_rcvtimeo n ∷ send (c ∷ cs) ∷ h) = received (c ∷ cs)
reply_to _ = again

abbrev json_of : Request → Answer Text
json_of (Request.generate_command session_id prompt) = answer (codes "g")
json_of _ = answer (codes "s")

-- A line is typed, and the shell prints a prompt.
abbrev pub outside : Outside
outside = record {
  on_write = λ h. answer tt;
  on_read_stdin = λ h. answer (codes "ls :");
  on_read_pty = λ h. pty_bytes (codes "<on>");
  on_read_line = λ h. answer (line (codes "0"));
  on_create_socket = λ h. answer tt;
  on_set_linger = λ h. answer tt;
  on_connect = λ h. answer tt;
  on_read_env = λ h. answer (codes "me");
  on_send = λ h. answer tt;
  on_set_rcvtimeo = λ h. answer tt;
  on_recv = reply_to;
  on_poll = λ h. events (0 ∷ 1 ∷ []);
  on_wait = λ h. still_alive;
  to_json = json_of;
  from_json = λ t. answer (
      if bytes_eq t (codes "g") then command_response (codes "try") (codes "ls" ∷ []) else success);
  debug_text = λ t. t;
  debug_response = λ r. [];
  is_decimal = λ c. false;
}

pub markers : AreMarkers in_marker out_marker
unfolding make_string_id
markers = (omega arith, omega arith, omega arith, omega arith)

abbrev pub created :
    (q : BashParser) × (Bash.new in_marker out_marker ≡ ok q)
    × IsCoupled in_marker out_marker (create_proxy [] 7 q)
created = create_proxy-IsCoupled in_marker out_marker [] 7 markers

abbrev pub proxy : ShellProxy
proxy = create_proxy [] 7 created.0

pub working : IsWorking outside
unfolding save_context bytes_eq
working = record {
  writes = λ h. refl;
  saves = λ session_id context_type context h. refl;
  reads = λ h e r. cc;
}

create_proxy-IsCoupled_example :
    (q : BashParser) × (Bash.new in_marker out_marker ≡ ok q)
    × IsCoupled in_marker out_marker (create_proxy [] 7 q)
create_proxy-IsCoupled_example = create_proxy-IsCoupled in_marker out_marker [] 7 markers

handle_output-works_example :
    (more : Bool) × (p' : ShellProxy) × (handle_output outside proxy ≡ (ok more, p'))
    × IsCoupled in_marker out_marker p'
handle_output-works_example =
    handle_output-works in_marker out_marker outside proxy created.2 working

interactive : IsInteractive outside
unfolding generate_command bytes_eq
interactive = record {
  works = working;
  stdin = λ h. (_, refl);
  lines = λ h. (_, refl);
  generates = λ session_id prompt h. (_, refl);
}

handle_input-works_example :
    (p' : ShellProxy) × (handle_input outside proxy ≡ (ok tt, p'))
    × IsCoupled in_marker out_marker p'
handle_input-works_example =
    handle_input-works outside in_marker out_marker proxy created.2 interactive

abbrev pub printed :
    (more : Bool) × (p' : ShellProxy) × (handle_output outside proxy ≡ (ok more, p'))
    × IsCoupled in_marker out_marker p'
printed = handle_output-works in_marker out_marker outside proxy created.2 working

Handled-IsCoupled_example : IsCoupled in_marker out_marker printed.1
Handled-IsCoupled_example =
    Handled-IsCoupled in_marker out_marker outside created.2 (output_handled printed.2 unhandled)

prefix_example :
    send_msg outside (Request.exit 3) 2000 []
    ≡ (ok success, exchanged (codes "s") 2000 (exchanged alive_msg 500 []))
unfolding send_msg bytes_eq
prefix_example = refl

send_msg-ok_example :
    (json answer_json : Text) × (outside.to_json (Request.exit 3) ≡ answer json)
    × (outside.on_recv (exchanged alive_msg 500 []) ≡ received (codes "Ack"))
    × (exchanged (codes "s") 2000 (exchanged alive_msg 500 [])
        ≡ exchanged json 2000 (exchanged alive_msg 500 []))
    × (outside.on_recv (exchanged (codes "s") 2000 (exchanged alive_msg 500 []))
        ≡ received answer_json)
    × (outside.from_json answer_json ≡ answer success)
send_msg-ok_example = send_msg-ok outside (Request.exit 3) 2000 [] _ success prefix_example

-- hermitd does not answer.
abbrev silent : Outside
silent = record outside { on_recv = λ h. again }

send_msg-unacknowledged_example :
    let h' = (send_msg silent (Request.exit 3) 2000 []).1 in
    (h' ≡ send alive_msg ∷ [])
    ⊎ (h' ≡ set_rcvtimeo 500 ∷ send alive_msg ∷ [])
    ⊎ (h' ≡ exchanged alive_msg 500 [])
send_msg-unacknowledged_example = send_msg-unacknowledged silent (Request.exit 3) 2000 [] (λ e. cc)

safe_handle_terminal-safe_example : (safe_handle_terminal outside 3 proxy).0 ≢ panicked
safe_handle_terminal-safe_example =
    safe_handle_terminal-safe in_marker out_marker outside (λ h. (inl refl, (inr refl, tt))) 3 proxy
      created.2

-- Every poll is interrupted.
abbrev interrupting : Outside
interrupting = record outside { on_poll = λ h. interrupted (codes "EINTR") }

safe_handle_terminal-interrupted_example : safe_handle_terminal interrupting 11 proxy ≡ (
  err (repeatedly (codes "EINTR")),
  record proxy { history = poll ∷ retried max_eintr_retry proxy.history },
)
safe_handle_terminal-interrupted_example =
    safe_handle_terminal-interrupted interrupting (codes "EINTR") (λ h. refl) 11 proxy (omega arith)

selected :
    on_selection outside (codes "ls" ∷ codes "pwd" ∷ []) (line (codes " 1 ")) []
    ≡ (ok (some (codes "pwd")), [])
unfolding on_selection select selection_of trim parse_usize
selected = refl

on_selection-some_example :
    (text : Text) × (i : ℕ) × (line (codes " 1 ") ≡ line text)
    × IsNumber (trim text) i
    × (get_elem? (codes "ls" ∷ codes "pwd" ∷ []) i ≡ some (codes "pwd"))
    × (◌≡◌ {A = History} [] [])
on_selection-some_example =
    on_selection-some outside (codes "ls" ∷ codes "pwd" ∷ []) (line (codes " 1 ")) [] []
      (codes "pwd") selected

abbrev choosing : Outside
choosing = record outside { on_read_line = λ h. answer (line (decimal 1)) }

handle_hermit_selection-offers_example :
    (above below : Text) × (handle_hermit_selection choosing (codes "ls" ∷ codes "pwd" ∷ []) [] ≡ (
      ok (some (codes "pwd")),
      read_line
          ∷ flush_stdout
          ∷ write_stdout
              (fix_newlines (into_bytes (above ++ codes "\n" ++ entry 1 (codes "pwd") ++ below)))
          ∷ [],
    ))
handle_hermit_selection-offers_example =
    handle_hermit_selection-offers choosing (codes "ls" ∷ codes "pwd" ∷ []) 1 (codes "pwd") []
      (omega arith) refl (λ h. refl) (λ h. refl)
